-- ===== src/Artifact/Changeset/Capture.antt =====
-- crates/pantheon-core/src/artifact.rs: what a captured state and a changeset are made of.
use pantheon.Base.{
  ◌≡◌, ◌≢◌, ◌↔◌, refl, true, Option, none, some, List, [], ◌∷◌, map, Text, text_cmp, text_order,
  text_eq_iff, All, All-map, Bool-cases, ok, inl, inr, arith, Ordering,
}
use mathlib.Core.List.{Permᴰ}
use pantheon.Base.SortBy.{
  sort_by, sort_by-perm, sort_by-Perm, perm_sym, IsDistinct, IsDistinct-perm, IsChain,
  sort_by-IsChain,
}
use pantheon.Config.Digest.{Digest, Hasher, value_digest}
use pantheon.Config.Value.{array_of}
use pantheon.Artifact.Changeset.{
  EntryState, absent, present, Operation, add, modify, delete, ChangesetEntry, agrees, new_entry,
  FinalEntry, sort_key, RevisionState, find_duplicate, seal_sorted, new_state, final_value,
  changeset_manifest,
}

-- distinct neighbours are found to be distinct
IsDistinct-find_duplicate : (l : List FinalEntry) → IsDistinct sort_key l → find_duplicate l ≡ none
unfolding find_duplicate
IsDistinct-find_duplicate [] h = refl
IsDistinct-find_duplicate (a ∷ []) h = refl
IsDistinct-find_duplicate (a ∷ b ∷ l) h =
    let rest = IsDistinct-find_duplicate (b ∷ l) h.1 in
    ground (arith, h.0.0, text_eq_iff a.path b.path, rest)

-- each path of the list is above `p`
AllAfter : Text → List FinalEntry → Type 0
AllAfter p l = All (λ e. text_cmp p e.path ≡ Ordering.lt) l

after_chain :
    (p q : Text) (l : List FinalEntry) → text_cmp p q ≡ Ordering.lt → AllAfter q l → AllAfter p l
unfolding AllAfter
after_chain p q l e h = All-map l (λ r k. text_order.chain p q r.path e k) h

above : (a b : FinalEntry) → text_cmp a.path b.path ≡ Ordering.lt → a.path ≢ b.path
above a b e same = ground (arith, e, same, text_order.same a.path)

-- a sorted list without equal neighbours is strictly ascending
find_duplicate-ascending :
    (a : FinalEntry) (l : List FinalEntry)
    → IsChain sort_key (a ∷ l)
    → find_duplicate (a ∷ l) ≡ none
    → AllAfter a.path l × IsDistinct sort_key (a ∷ l)
unfolding find_duplicate AllAfter
find_duplicate-ascending a [] c h = (tt, (tt, tt))
find_duplicate-ascending a (b ∷ l) c h =
    let (after, distinct) = find_duplicate-ascending b l c.1 (ground (arith, h)) in
    let below : text_cmp a.path b.path ≡ Ordering.lt =
      ground (arith, c.0, h, text_eq_iff a.path b.path, text_order.equal a.path b.path) in
    let chained = after_chain a.path b.path l below after in
    ((below, chained), ((above a b below, All-map l (λ e k. above a e k) chained), distinct))

find_duplicate-IsDistinct :
    (l : List FinalEntry) → IsChain sort_key l → find_duplicate l ≡ none → IsDistinct sort_key l
find_duplicate-IsDistinct [] c h = tt
find_duplicate-IsDistinct (a ∷ l) c h = (find_duplicate-ascending a l c h).1

seal_sorted-none :
    (sha256 : Hasher) (l : List FinalEntry) (d : Option Text) (s : RevisionState)
    → seal_sorted sha256 l d ≡ ok s
    → d ≡ none
unfolding seal_sorted
seal_sorted-none sha256 l none s h = refl
seal_sorted-none sha256 l (some _) s h = cc

-- A capture yields a state exactly when no path is named twice. The state then has the entries in the
-- order of their paths, and the digest of the document that lists them so.
pub new_state_iff :
    (sha256 : Hasher) (entries : List FinalEntry) (s : RevisionState)
    → (new_state sha256 entries ≡ ok s) ↔ (
        IsDistinct sort_key entries
        × (s ≡ record {
          entries = sort_by sort_key entries;
          digest = value_digest sha256 (array_of (map final_value (sort_by sort_key entries)));
        }))
unfolding new_state seal_sorted
new_state_iff sha256 entries s = (
  (λ h.
      let none_twice = seal_sorted-none sha256 (sort_by sort_key entries) _ s h in
      let distinct =
        find_duplicate-IsDistinct (sort_by sort_key entries) (sort_by-IsChain sort_key entries)
          none_twice in
      (
        IsDistinct-perm sort_key (sort_by-Perm sort_key entries) distinct,
        ground (arith, h, none_twice),
      )),
  (λ h.
      let distinct =
        IsDistinct-perm sort_key (perm_sym sort_key (sort_by-Perm sort_key entries)) h.0 in
      rw (IsDistinct-find_duplicate (sort_by sort_key entries) distinct, h.1) refl),
)

-- The captured state, and so its digest, does not depend on the order in which a capture walked the
-- files: two arrangements of entries with distinct paths yield the same state.
pub new_state-perm :
    (sha256 : Hasher) {entries entries' : List FinalEntry}
    → Permᴰ entries entries'
    → IsDistinct sort_key entries
    → new_state sha256 entries ≡ new_state sha256 entries'
unfolding new_state
new_state-perm sha256 p h = rw (sort_by-perm sort_key p h) refl

abbrev pub entry_key : ChangesetEntry → Text
entry_key e = e.path

-- The manifest of a changeset does not depend on the order of its entries, when their paths are distinct:
-- the entries are sorted, although the comment in the source says that they are not.
pub changeset_manifest-perm :
    (repository base_commit : Text) (revision : Digest) {entries entries' : List ChangesetEntry}
    → Permᴰ entries entries'
    → IsDistinct entry_key entries
    → changeset_manifest repository base_commit revision entries
      ≡ changeset_manifest repository base_commit revision entries'
unfolding changeset_manifest
changeset_manifest-perm repository base_commit revision p h = rw (sort_by-perm entry_key p h) refl

-- an operation against the files that it leads from and to
pub data IsChange : Operation → EntryState → EntryState → Type 0 where
  added : {k : _} {d : Digest} {n : _} → IsChange add absent (present k d n)
  modified : {k j : _} {d e : Digest} {n m : _} → IsChange modify (present k d n) (present j e m)
  deleted : {k : _} {d : Digest} {n : _} → IsChange delete (present k d n) absent

agrees-IsChange : (o : Operation) (b a : EntryState) → agrees o b a ≡ true → IsChange o b a
unfolding agrees
agrees-IsChange add absent absent h = cc
agrees-IsChange add absent (present _ _ _) h = added
agrees-IsChange add (present _ _ _) _ h = cc
agrees-IsChange modify absent _ h = cc
agrees-IsChange modify (present _ _ _) absent h = cc
agrees-IsChange modify (present _ _ _) (present _ _ _) h = modified
agrees-IsChange delete absent _ h = cc
agrees-IsChange delete (present _ _ _) absent h = deleted
agrees-IsChange delete (present _ _ _) (present _ _ _) h = cc

IsChange-agrees : {o : Operation} {b a : EntryState} → IsChange o b a → agrees o b a ≡ true
unfolding agrees
IsChange-agrees added = refl
IsChange-agrees modified = refl
IsChange-agrees deleted = refl

-- An entry is made exactly when its operation is the one that leads from the state before to the state
-- after, and it has them as they were given.
pub new_entry_iff :
    (path : Text) (o : Operation) (b a : EntryState) (e : ChangesetEntry)
    → (new_entry path o b a ≡ ok e)
      ↔ (IsChange o b a × (e ≡ record { path = path; operation = o; before = b; after = a }))
unfolding new_entry
new_entry_iff path o b a e = elim (Bool-cases (agrees o b a)) [
  | inl t ↦ ((λ h. (agrees-IsChange o b a t, ground (arith, t, h))), (λ h. rw (t, h.1) refl))
  | inr t ↦
      ((λ h. ground (arith, t, h)), (λ h. let c = IsChange-agrees h.0 in ground (arith, t, c)))
]
