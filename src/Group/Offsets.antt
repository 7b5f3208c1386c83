-- ===== src/Group/Offsets.antt =====
-- Committed offsets of consumer groups, internal/group/coordinator.go: the map behind
-- offsets.json. The hook that a commit calls for each offset works on other state.
use logship.Prelude.{
  ◌≡◌, refl, sym, ap, ◌∙◌, Bool, true, false, ◌&&◌, if◌then◌else◌, Option, none, some, List, [],
  ◌∷◌, ◌++◌, append_assoc, Bytes, str_eq, str_eq_refl, str_eq→eq, itoa, atoi, itoa-All, atoi-itoa,
  split_last, split_last-append, FitsInt, lookup, insert, lookup-insert,
}
use logship.Prelude.Int.{ℤ, pos, eq_ℤ, eq_ℤ_refl, eq_ℤ→eq}

-- 47 is the slash.
unfoldable pub offset_key : Bytes → Bytes → ℤ → Bytes
offset_key group topic partition = group ++ (47 ∷ (topic ++ (47 ∷ itoa partition)))

-- Partitions and offsets are ints of the source.
pub record Committed : Type 0 where
  pub topic : Bytes
  pub partition : ℤ
  pub offset : ℤ

unfoldable pub commit_all : Bytes → List Committed → List (Bytes × ℤ) → List (Bytes × ℤ)
commit_all group [] offsets = offsets
commit_all group (o ∷ os) offsets =
    commit_all group os (insert (offset_key group o.topic o.partition) o.offset offsets)

-- Whether there was no error, and the map; `saved` is how writing the file went.
unfoldable pub commit : Bool → Bytes → List Committed → List (Bytes × ℤ) → Bool × List (Bytes × ℤ)
commit saved group os offsets = (saved, commit_all group os offsets)

unfoldable pub apply_offset : Bytes → Bytes → ℤ → ℤ → List (Bytes × ℤ) → List (Bytes × ℤ)
apply_offset group topic partition offset offsets =
    insert (offset_key group topic partition) offset offsets

pub commit_all-append :
    (group : Bytes) (os : List Committed) (o : Committed) (offsets : List (Bytes × ℤ))
    → commit_all group (os ++ o ∷ []) offsets
      ≡ insert (offset_key group o.topic o.partition) o.offset (commit_all group os offsets)
unfolding commit_all
commit_all-append group [] o offsets = refl
commit_all-append group (p ∷ os) o offsets = commit_all-append group os o _

-- After a commit the last offset committed for a partition is the one in the map, whether or not
-- the file could be written.
pub commit-lookup :
    (saved : Bool) (group : Bytes) (os : List Committed) (o : Committed)
    (offsets : List (Bytes × ℤ))
    → lookup (offset_key group o.topic o.partition) (commit saved group (os ++ o ∷ []) offsets).1
      ≡ some o.offset
unfolding commit
commit-lookup saved group os o offsets =
    let key = offset_key group o.topic o.partition in
    rw (
      commit_all-append group os o offsets,
      lookup-insert key key o.offset (commit_all group os offsets),
      str_eq_refl key,
    )

-- What stands in front of the last slash of a key.
abbrev pub place : Bytes → Bytes → Bytes
place group topic = group ++ (47 ∷ topic)

offset_key-place :
    (group topic : Bytes) (partition : ℤ)
    → split_last 47 (offset_key group topic partition) ≡ some (place group topic, itoa partition)
unfolding offset_key
offset_key-place group topic partition =
    ap (split_last 47) (sym (append_assoc group (47 ∷ topic) (47 ∷ itoa partition)))
    ∙ split_last-append 47 (place group topic) (itoa partition) (itoa-All partition)

both : (a b : Bool) → (a ≡ true → b ≡ true) → (b ≡ true → a ≡ true) → a ≡ b
both true b f g = sym (f refl)
both false true f g = g refl
both false false f g = refl

str_eq-offset_key :
    (group topic group' topic' : Bytes) (p q : ℤ)
    → FitsInt p
    → FitsInt q
    → str_eq (offset_key group topic p) (offset_key group' topic' q)
      ≡ (eq_ℤ p q && str_eq (place group topic) (place group' topic'))
str_eq-offset_key group topic group' topic' p q fp fq = both _ _ same other
  where
    front : Option (Bytes × Bytes) → Bytes
    front none = []
    front (some (a, b)) = a

    number : Option (Bytes × Bytes) → Option ℤ
    number none = none
    number (some (a, b)) = atoi b

    or_zero : Option ℤ → ℤ
    or_zero none = pos 0
    or_zero (some n) = n

    same :
        str_eq (offset_key group topic p) (offset_key group' topic' q) ≡ true
        → (eq_ℤ p q && str_eq (place group topic) (place group' topic')) ≡ true
    same e =
        let halves : some (place group topic, itoa p) ≡ some (place group' topic', itoa q) =
          sym (offset_key-place group topic p)
          ∙ ap (split_last 47) (str_eq→eq _ _ e)
          ∙ offset_key-place group' topic' q in
        let partitions : p ≡ q =
          ap or_zero (sym (atoi-itoa p fp) ∙ ap number halves ∙ atoi-itoa q fq) in
        rw (partitions, eq_ℤ_refl q, ap front halves, str_eq_refl (place group' topic')) refl

    other :
        (eq_ℤ p q && str_eq (place group topic) (place group' topic')) ≡ true
        → str_eq (offset_key group topic p) (offset_key group' topic' q) ≡ true
    other e =
        let parts = split_and (eq_ℤ p q) (str_eq (place group topic) (place group' topic')) e in
        let keys : offset_key group topic p ≡ offset_key group' topic' q =
          unfold offset_key in
          sym (append_assoc group (47 ∷ topic) (47 ∷ itoa p))
          ∙ ap (λ a. a ++ (47 ∷ itoa p)) (str_eq→eq _ _ parts.1)
          ∙ ap (λ n. place group' topic' ++ (47 ∷ itoa n)) (eq_ℤ→eq p q parts.0)
          ∙ append_assoc group' (47 ∷ topic') (47 ∷ itoa q) in
        rw (keys, str_eq_refl (offset_key group' topic' q)) refl
      where
        split_and : (a b : Bool) → (a && b) ≡ true → (a ≡ true) × (b ≡ true)
        split_and true b e = (refl, e)
        split_and false b e = cc

-- A commit of one group changes the offset that another group, or the same one, has for a partition if
-- and only if the partition ids are the same and so are group and topic joined by a slash: `a/b` with
-- topic `c` and `a` with topic `b/c` overwrite each other. Partition ids are 64-bit.
pub commit-one_lookup :
    (saved : Bool) (mine theirs : Bytes) (o new : Committed) (offsets : List (Bytes × ℤ))
    → FitsInt o.partition
    → FitsInt new.partition
    → lookup (offset_key mine o.topic o.partition) (commit saved theirs (new ∷ []) offsets).1 ≡ (
        if eq_ℤ new.partition o.partition && str_eq (place theirs new.topic) (place mine o.topic)
        then some new.offset
        else lookup (offset_key mine o.topic o.partition) offsets)
unfolding commit commit_all
commit-one_lookup saved mine theirs o new offsets fits fits_new =
    rw
      (
        lookup-insert (offset_key theirs new.topic new.partition)
            (offset_key mine o.topic o.partition) new.offset offsets,
        str_eq-offset_key theirs new.topic mine o.topic new.partition o.partition fits_new fits,
      )
      refl
