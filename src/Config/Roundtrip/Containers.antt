-- ===== src/Config/Roundtrip/Containers.antt =====
-- What the loops of `array` and `object` collect. A key above those of a map goes to its end.
use Prim.Native.Nat.Ordering.{lt, gt}
use pantheon.Base.{◌≡◌, refl, ap, Text, text_cmp, none, text_order}
use pantheon.Config.Value.{Value, Values, Entries, nil, cons, end, entry, insert_entry, get_entry}
use pantheon.Config.Parse.Grammar.{push}

infixr 60 ◌⊕◌ ◌⊞◌
abbrev pub ◌⊕◌ : Values → Values → Values
nil ⊕ m = m
cons v l ⊕ m = cons v (l ⊕ m)

abbrev pub ◌⊞◌ : Entries → Entries → Entries
end ⊞ n = n
entry k v m ⊞ n = entry k v (m ⊞ n)

pub push-⊕ : (l : Values) (v : Value) (m : Values) → push l v ⊕ m ≡ l ⊕ cons v m
push-⊕ nil v m = refl
push-⊕ (cons w l) v m = ap (cons w) (push-⊕ l v m)

pub push-eq-⊕ : (l : Values) (v : Value) → push l v ≡ l ⊕ cons v nil
push-eq-⊕ nil v = refl
push-eq-⊕ (cons w l) v = ap (cons w) (push-eq-⊕ l v)

pub ⊞_entry :
    (m : Entries) (k : Text) (v : Value) (n : Entries) → (m ⊞ entry k v end) ⊞ n ≡ m ⊞ entry k v n
⊞_entry end k v n = refl
⊞_entry (entry j w m) k v n = ap (entry j w) (⊞_entry m k v n)

-- every key of the map is below `k`
abbrev pub AllBelow : Text → Entries → Type 0
AllBelow k end = Unit
AllBelow k (entry j _ m) = (text_cmp k j ≡ gt) × AllBelow k m

pub insert_entry-eq-⊞ :
    (k : Text) (v : Value) (m : Entries) → AllBelow k m → insert_entry k v m ≡ m ⊞ entry k v end
unfolding insert_entry
insert_entry-eq-⊞ k v end h = refl
insert_entry-eq-⊞ k v (entry j w m) h =
    rw (h.0, insert_entry) (ap (entry j w) (insert_entry-eq-⊞ k v m h.1))

pub get_entry_below : (k : Text) (m : Entries) → AllBelow k m → get_entry k m ≡ none
unfolding get_entry
get_entry_below k end h = refl
get_entry_below k (entry j w m) h = rw (h.0, get_entry) (get_entry_below k m h.1)

pub AllBelow-chain : (k k' : Text) (m : Entries) → text_cmp k k' ≡ lt → AllBelow k m → AllBelow k' m
AllBelow-chain k k' end e h = tt
AllBelow-chain k k' (entry j w m) e h = (
  text_order.flip_lt j k' (text_order.chain j k k' (text_order.flip_gt k j h.0) e),
  AllBelow-chain k k' m e h.1,
)

pub AllBelow-⊞ :
    (k j : Text) (v : Value) (m : Entries)
    → text_cmp k j ≡ gt
    → AllBelow k m
    → AllBelow k (m ⊞ entry j v end)
AllBelow-⊞ k j v end e h = (e, tt)
AllBelow-⊞ k j v (entry i w m) e h = (h.0, AllBelow-⊞ k j v m e h.1)
