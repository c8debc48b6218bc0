-- ===== src/Config/Value.antt =====
-- crates/pantheon-core/src/config/canonical.rs, the value domain. A `BTreeMap` is its list of
-- entries, and `IsCanonical` says what the types of the source say of a value: the keys ascend,
-- and an integer is an `i64`.
use pantheon.Base.{◌≡◌, Bool, Option, none, some, List, [], ◌∷◌, Text, text_cmp}
use pantheon.Base.Int.{ℤ, IsInt64}
use Prim.Native.Nat.Ordering.{lt, eq, gt}

mutual
  pub data Value : Type 0 where
    null : Value
    bool : Bool → Value
    integer : ℤ → Value
    string : Text → Value
    array : Values → Value
    object : Entries → Value

  pub data Values : Type 0 where
    nil : Values
    cons : Value → Values → Values

  pub data Entries : Type 0 where
    end : Entries
    entry : Text → Value → Entries → Entries

-- `Value::array`
abbrev pub values : List Value → Values
values [] = nil
values (v ∷ l) = cons v (values l)

abbrev pub array_of : List Value → Value
array_of l = array (values l)

-- `BTreeMap::insert`
unfoldable pub insert_entry : Text → Value → Entries → Entries
insert_entry k v end = entry k v end
insert_entry k v (entry j w m) = elim (text_cmp k j) [
  | lt ↦ entry k v (entry j w m)
  | eq ↦ entry k v m
  | gt ↦ entry j w (insert_entry k v m)
]

-- `BTreeMap::get`
unfoldable pub get_entry : Text → Entries → Option Value
get_entry k end = none
get_entry k (entry j w m) = elim (text_cmp k j) [ eq ↦ some w | _ ↦ get_entry k m ]

-- the pairs are collected into the map from the left
unfoldable pub collect_entries : Entries → List (Text × Value) → Entries
unfolding insert_entry
collect_entries m [] = m
collect_entries m ((k, v) ∷ l) = collect_entries (insert_entry k v m) l

-- `Value::object`
unfoldable pub object_of : List (Text × Value) → Value
unfolding collect_entries
object_of l = object (collect_entries end l)

-- `Value::get`
unfoldable pub get : Value → Text → Option Value
unfolding get_entry
get (object m) key = get_entry key m
get _ key = none

-- every key of the map is above `k`
abbrev pub AllAbove : Text → Entries → Type 0
AllAbove k end = Unit
AllAbove k (entry j _ m) = (text_cmp k j ≡ lt) × AllAbove k m

abbrev mutual
  pub IsCanonical : Value → Type 0
  IsCanonical null = Unit
  IsCanonical (bool _) = Unit
  IsCanonical (integer z) = IsInt64 z
  IsCanonical (string _) = Unit
  IsCanonical (array l) = AreCanonical l
  IsCanonical (object m) = IsMap m

  pub AreCanonical : Values → Type 0
  AreCanonical nil = Unit
  AreCanonical (cons v l) = IsCanonical v × AreCanonical l

  pub IsMap : Entries → Type 0
  IsMap end = Unit
  IsMap (entry k v m) = AllAbove k m × IsCanonical v × IsMap m
