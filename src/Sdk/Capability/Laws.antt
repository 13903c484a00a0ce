-- ===== src/Sdk/Capability/Laws.antt =====
-- What a capability set promises: it is the set of the names that it was made from.
use mathlib.Core.List.{
  Mem, Mem-prop, not-mem-nil, mem-cons, mem-cons_self, mem-cons_of_mem, Nodup, Nodup-nil,
  perm_ext_iff_of_Nodup,
}
use mathlib.Core.List.Perm
use mathlib.Core.Logic.Iff
use mathlib.Core.Logic.Or
use dbprobe.Base.{
  String, Option, none, some, Bool, true, false, ◌||◌, List, [], ◌∷◌, ◌≡◌, ◌≢◌, ◌↔◌, refl, arith,
}
use dbprobe.Base.Contains.{contains, contains_iff}
use dbprobe.Base.GoMap.{GoMap, keys, lookup, insert, lookup-insert, mem-keys_iff, keys-insert-Nodup}
use dbprobe.Base.Sort.{
  sort_strings, sort-perm, sort-IsSorted, IsSorted, str_lt-IsWeakOrder, sort_strings-eq_of_perm,
}
use dbprobe.Base.Text.{str_lt}
use dbprobe.Sdk.Capability.{add_all, new, has, has_all, list}

abbrev Seen : Type 0
Seen = GoMap (Unit {0})

abbrev found : Option (Unit {0}) → Bool
found none = false
found (some _) = true

found_iff : (o : Option (Unit {0})) → (found o ≡ true) ↔ (o ≢ none)
found_iff none = ground arith
found_iff (some _) = ground arith

add_all-Nodup : (vs : List String) (m : Seen) → Nodup (keys m) → Nodup (keys (add_all vs m))
unfolding add_all
add_all-Nodup [] m n = n
add_all-Nodup (v ∷ vs) m n = add_all-Nodup vs (insert v tt m) (keys-insert-Nodup v tt m n)

found-add_all :
    (vs : List String) (m : Seen) (c : String)
    → found (lookup (add_all vs m) c) ≡ (contains vs c || found (lookup m c))
unfolding add_all
found-add_all [] m c = refl
found-add_all (v ∷ vs) m c =
    ground (arith, found-add_all vs (insert v tt m) c, lookup-insert v c tt m)

or_false_iff : (b : Bool) → ((b || false) ≡ true) ↔ (b ≡ true)
or_false_iff true = ground arith
or_false_iff false = ground arith

-- The loop of `New`, which is also that of `normalizeCapabilities`, keeps the names of its input.
pub mem-add_all : (vs : List String) (c : String) → Mem c (keys (add_all vs [])) ↔ Mem c vs
unfolding lookup
mem-add_all vs c = Iff.trans (mem-keys_iff c (add_all vs [])) (
    Iff.trans (Iff.symm (found_iff (lookup (add_all vs []) c)))
      (rw (found-add_all vs [] c) (Iff.trans (or_false_iff (contains vs c)) (contains_iff vs c))))

pub has-new : (vs : List String) (c : String) → has (new vs) c ≡ contains vs c
unfolding has new lookup
has-new vs c = ground (arith, found-add_all vs [] c)

pub add_all-keys-Nodup : (vs : List String) → Nodup (keys (add_all vs []))
add_all-keys-Nodup vs = add_all-Nodup vs [] Nodup-nil

-- Two inputs with the same members give the same sorted list of names, whatever their order and
-- repetitions: a capability list is a canonical form of a set.
pub sort_strings-add_all_ext :
    (vs ws : List String)
    → ((c : String) → Mem c vs ↔ Mem c ws)
    → sort_strings (keys (add_all vs [])) ≡ sort_strings (keys (add_all ws []))
sort_strings-add_all_ext vs ws h = sort_strings-eq_of_perm (
    (perm_ext_iff_of_Nodup (add_all-keys-Nodup vs) (add_all-keys-Nodup ws)).1
      (λ c. Iff.trans (mem-add_all vs c) (Iff.trans (h c) (Iff.symm (mem-add_all ws c)))))

-- A sorted list of names without repetition that has exactly the names of `vs`.
pub record IsListOf (vs out : List String) : Type 0 where
  pub sorted : IsSorted str_lt out
  pub distinct : Nodup out
  pub members : (c : String) → Mem c out ↔ Mem c vs

pub sort_strings-add_all-IsListOf :
    (vs : List String) → IsListOf vs (sort_strings (keys (add_all vs [])))
sort_strings-add_all-IsListOf vs =
    let p = sort-perm str_lt (keys (add_all vs [])) in
    record {
      sorted = sort-IsSorted str_lt str_lt-IsWeakOrder (keys (add_all vs []));
      distinct = Perm.nodup (Perm.symm p) (add_all-keys-Nodup vs);
      members = λ c. Iff.trans (Perm.mem_iff p) (mem-add_all vs c);
    }

-- `List` after `New` gives the names of the input, sorted and each once.
-- A set made from a list lists its members, sorted, each once.
pub list-new-IsListOf : (vs : List String) → IsListOf vs (list (new vs))
unfolding list new
list-new-IsListOf vs = sort_strings-add_all-IsListOf vs

has_all_subset :
    (vs ws : List String) → has_all (new vs) ws ≡ true → (c : String) → Mem c ws → Mem c vs
unfolding has_all
has_all_subset vs [] h c m = absurd (not-mem-nil m)
has_all_subset vs (w ∷ ws) h c m =
    Or.elim Mem-prop (mem-cons.0 m)
      (λ e. (contains_iff vs c).0 (rw e (ground (arith, has-new vs w))))
      (λ t. has_all_subset vs ws (ground arith) c t)

has_all_of_subset :
    (vs ws : List String) → ((c : String) → Mem c ws → Mem c vs) → has_all (new vs) ws ≡ true
unfolding has_all
has_all_of_subset vs [] h = refl
has_all_of_subset vs (w ∷ ws) h =
    let here = (contains_iff vs w).1 (h w mem-cons_self) in
    ground (arith, here, has-new vs w, has_all_of_subset vs ws (λ c m. h c (mem-cons_of_mem w m)))

-- `HasAll` on a set made by `New` holds exactly when every name asked for is a name of the input.
-- A set made from one list has all of another exactly when the one contains the other.
pub has_all-new :
    (vs ws : List String) → (has_all (new vs) ws ≡ true) ↔ ((c : String) → Mem c ws → Mem c vs)
has_all-new vs ws = (has_all_subset vs ws, has_all_of_subset vs ws)
