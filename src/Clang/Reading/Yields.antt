-- ===== src/Clang/Reading/Yields.antt =====
-- What a part of the reading does to the builder's stack and versions, and the rules by which parts
-- are composed.
use rcssserver.Base.{◌≡◌, refl, ◌∙◌, ℕ, false, ltb, length, Option, none, some, List, [], ◌∷◌, ◌++◌}
use mathlib.Core.List.{append-nil}
use rcssserver.Clang.Syntax.{Str}
use rcssserver.Clang.Builder.Machine.{
  ok, Item, as_reg, as_unum, as_rid, Versions, no_versions, set_versions, MsgBuilder, M, ◌>>=◌,
  ◌>>◌, take_items, check_and_take, str_size, check_name, set_ver, pop_items,
}
use rcssserver.Clang.Reading.Parts.{read_all, check_size}
use rcssserver.Clang.Reading.Fits.{All, FitsName}

-- The versions that the grammar's calls of `setVer` lead to.
pub data Range : Type 0 where
  unset only_7 only_8 from_7 any_version : Range

abbrev pub versions : Range → Versions
versions unset = no_versions
versions only_7 = record { min_ver = 7; max_ver = 7 }
versions only_8 = record { min_ver = 8; max_ver = 8 }
versions from_7 = record { min_ver = 7; max_ver = 8 }
versions any_version = record { min_ver = 8; max_ver = 7 }

-- The builder while a message is read.
abbrev pub at : List Item → Range → MsgBuilder
at is k = record { items = is; ver = versions k; msg = none }

-- `m` turns the stack `is` into `js`, and ends with versions of the list above.
pub record Yields (m : M (Unit {0})) (is js : List Item) : Type 0 where
  pub lands : (k : Range) → (k' : Range) × (m (at is k) ≡ ok (tt, at js k'))

pub yields :
    {m : M (Unit {0})} {is js : List Item}
    → ((k : Range) → m (at is k) ≡ ok (tt, at js k))
    → Yields m is js
yields e = record { lands = λ k. (k, e k) }

-- The same where the part before another one is not seen from the whole.
pub built :
    (m : M (Unit {0})) {is js : List Item}
    → ((k : Range) → m (at is k) ≡ ok (tt, at js k))
    → Yields m is js
built m e = yields e

pub then :
    {m m' : M (Unit {0})} {is js ls : List Item}
    → Yields m is js
    → Yields m' js ls
    → Yields (m >> m') is ls
then p q = record {
  lands =
      λ k. ((q.lands (p.lands k).0).0, rw ((p.lands k).1, ◌>>◌, ◌>>=◌) (q.lands (p.lands k).0).1);
}

abbrev pub after_7 : Range → Range
after_7 unset = only_7
after_7 only_7 = only_7
after_7 only_8 = from_7
after_7 from_7 = from_7
after_7 any_version = only_7

abbrev pub after_8 : Range → Range
after_8 unset = only_8
after_8 only_7 = from_7
after_8 only_8 = only_8
after_8 from_7 = from_7
after_8 any_version = only_8

pub set_versions_7 : (k : Range) → set_versions 7 7 (versions k) ≡ versions (after_7 k)
unfolding set_versions
set_versions_7 unset = refl
set_versions_7 only_7 = refl
set_versions_7 only_8 = refl
set_versions_7 from_7 = refl
set_versions_7 any_version = refl

pub set_versions_8 : (k : Range) → set_versions 8 8 (versions k) ≡ versions (after_8 k)
unfolding set_versions
set_versions_8 unset = refl
set_versions_8 only_7 = refl
set_versions_8 only_8 = refl
set_versions_8 from_7 = refl
set_versions_8 any_version = refl

pub set_ver_7 : (is : List Item) → Yields (set_ver 7 7) is is
set_ver_7 is = record { lands = λ k. (after_7 k, rw (set_versions_7 k)) }

pub set_ver_8 : (is : List Item) → Yields (set_ver 8 8) is is
set_ver_8 is = record { lands = λ k. (after_8 k, rw (set_versions_8 k)) }

-- The stack after the items of a list were pushed.
abbrev pub pushed : {A : Type 0} → (A → Item) → List A → List Item → List Item
pushed item [] is = is
pushed item (x ∷ xs) is = pushed item xs (item x ∷ is)

-- The loop on the type stops at the stack.
abbrev pub Clear : {A : Type 0} → (Item → Option A) → List Item → Type 0
Clear {A} type is = (acc : List A) → take_items type acc is ≡ (acc, is)

pub Clear-cons :
    {A : Type 0} (type : Item → Option A) (i : Item) (is : List Item)
    → type i ≡ none
    → Clear type (i ∷ is)
unfolding take_items
Clear-cons type i is e acc = rw (take_items, e)

-- A stack that no loop of the next value runs into.
abbrev pub Tidy : List Item → Type 0
Tidy is = Clear as_unum is × Clear as_rid is × Clear as_reg is

pub Tidy-nil : Tidy []
unfolding take_items
Tidy-nil = (λ acc. refl, λ acc. refl, λ acc. refl)

pub Tidy-cons :
    (i : Item) (is : List Item)
    → as_unum i ≡ none
    → as_rid i ≡ none
    → as_reg i ≡ none
    → Tidy (i ∷ is)
Tidy-cons i is u r g =
    (Clear-cons as_unum i is u, Clear-cons as_rid i is r, Clear-cons as_reg i is g)

-- Every item of a list is of the type.
abbrev pub Reads : {A : Type 0} → (Item → Option A) → (A → Item) → Type 0
Reads {A} type item = (x : A) → type (item x) ≡ some x

take_items-pushed :
    {A : Type 0} (type : Item → Option A) (item : A → Item)
    → Reads type item
    → (xs acc : List A) (is : List Item)
    → take_items type acc (pushed item xs is) ≡ take_items type (xs ++ acc) is
unfolding take_items
take_items-pushed type item h [] acc is = refl
take_items-pushed type item h (x ∷ xs) acc is =
    take_items-pushed type item h xs acc (item x ∷ is) ∙ rw (h x, take_items)

pop_items-pushed :
    {A : Type 0} (type : Item → Option A) (item : A → Item)
    → Reads type item
    → (x : A) (xs : List A) (is : List Item)
    → (r : A × List Item) × (pop_items type (pushed item (x ∷ xs) is) ≡ ok r)
pop_items-pushed type item h x [] is = ((x, is), rw (h x))
pop_items-pushed type item h x (y ∷ xs) is = pop_items-pushed type item h y xs (item x ∷ is)

pub check_and_take-pushed :
    {A : Type 0} (type : Item → Option A) (item : A → Item)
    → Reads type item
    → (x : A) (xs : List A) (is : List Item) → Clear type is
    → (k : Range) → check_and_take type (at (pushed item (x ∷ xs) is) k) ≡ ok (x ∷ xs, at is k)
unfolding check_and_take
check_and_take-pushed type item h x xs is clear k = rw (
  check_and_take,
  (pop_items-pushed type item h x xs is).1,
  take_items-pushed type item h (x ∷ xs) [] is,
  append-nil (x ∷ xs),
  clear (x ∷ xs),
)

-- An operation that pops the items of a list and goes on with them.
pub then_take :
    {A : Type 0} (type : Item → Option A) (item : A → Item)
    → Reads type item
    → (f : List A → M (Unit {0})) (x : A) (xs : List A) {is js : List Item} → Clear type is
    → Yields (f (x ∷ xs)) is js
    → Yields (check_and_take type >>= f) (pushed item (x ∷ xs) is) js
then_take type item h f x xs {is} clear p = record {
  lands = λ k.
      ((p.lands k).0, rw (check_and_take-pushed type item h x xs is clear k, ◌>>=◌) (p.lands k).1);
}

-- A list whose elements each push one item, where the stack is one that they can start on.
pub read_all-Yields :
    {A : Type 0} (read : A → M (Unit {0})) (item : A → Item) (P : A → Type 0)
    (Q : List Item → Type 0)
    → ((x : A) (is : List Item) → P x → Q is → Yields (read x) is (item x ∷ is))
    → ((x : A) (is : List Item) → Q (item x ∷ is))
    → (xs : List A) → All P xs
    → (is : List Item) → Q is
    → Yields (read_all read xs) is (pushed item xs is)
read_all-Yields read item P Q each next [] fits is q = yields (λ k. refl)
read_all-Yields read item P Q each next (x ∷ xs) fits is q =
    then (each x is fits.0 q)
      (read_all-Yields read item P Q each next xs fits.1 (item x ∷ is) (next x is))

pub All-Unit : {A : Type 0} (xs : List A) → All (λ x. Unit {0}) xs
All-Unit [] = tt
All-Unit (x ∷ xs) = (tt, All-Unit xs)

-- The grammar's test on a text passes.
pub then_size :
    (max : ℕ) (s : Str) {m : M (Unit {0})} {is js : List Item}
    → ltb max (length s) ≡ false
    → Yields m is js
    → Yields (check_size max s >> m) is js
then_size max s fits p = record {
  lands = λ k. ((p.lands k).0, rw (fits, ◌>>◌, ◌>>=◌) (p.lands k).1);
}

-- The builder's test on a name passes.
then_name :
    (name : Str) {m : M (Unit {0})} {is js : List Item}
    → FitsName name
    → Yields m is js
    → Yields (check_name name >> m) is js
then_name name fits p = record {
  lands = λ k. ((p.lands k).0, rw (fits, ◌>>◌, ◌>>=◌) (p.lands k).1);
}

-- Both tests on a name pass.
pub then_both :
    (name : Str) {m : M (Unit {0})} {is js : List Item}
    → FitsName name
    → Yields m is js
    → Yields (check_size str_size name >> (check_name name >> m)) is js
then_both name fits p = then_size str_size name fits (then_name name fits p)
