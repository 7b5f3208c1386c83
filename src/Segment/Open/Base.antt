-- ===== src/Segment/Open/Base.antt =====
-- `recover` of internal/log/segment.go and the base offset of the segment.
use logship.Prelude.{
  ℕ, zero, suc, ◌+◌, ◌-◌, ◌%◌, ◌^◌, ◌≡◌, refl, Bool, true, false, ◌||◌, List, [], ◌∷◌, leb, ◌==◌,
  Bytes, subst, either_branch,
}
use logship.Record
use logship.Record.{Record, decode, encoded_size}
use logship.Index
use logship.Index.{IndexEntry}
use logship.Segment.{Segment, Result, ok}
use logship.Segment.Open.{OpenIo, cut_tail, tail_loop, scan_loop, next_write, recover_from, recover}

-- A segment that comes out has this base offset.
abbrev pub HasBase : ℕ → Result Segment → Type 0
HasBase b (ok s) = s.base_offset ≡ b
HasBase b _ = Unit

cut_tail-HasBase : (fine : Bool) (at : ℕ) (s : Segment) → HasBase s.base_offset (cut_tail fine at s)
cut_tail-HasBase true at s = refl
cut_tail-HasBase false at s = tt

-- One round, by what is read.
tail_round :
    (fuel : ℕ) (fine : Bool) (s : Segment) (unread : Bytes) (at next : ℕ)
    (read : Record.Result (Record × ℕ))
    → decode unread ≡ read
    → ((u : Bytes) (a n : ℕ) → HasBase s.base_offset (tail_loop fuel fine s u a n))
    → HasBase s.base_offset (tail_loop (suc fuel) fine s unread at next)
unfolding tail_loop
tail_round fuel fine s unread at next (Record.ok (r, n)) e rest = rw (e, HasBase) (rest _ _ _)
tail_round fuel fine s unread at next (Record.err Record.eof) e rest = rw (e, HasBase) refl
tail_round fuel fine s unread at next (Record.err Record.unexpected_eof) e rest =
    rw (e, HasBase) (cut_tail-HasBase fine at (record s { size = at; next_offset = next }))
tail_round fuel fine s unread at next (Record.err Record.corrupt) e rest =
    rw (e, HasBase) (cut_tail-HasBase fine at (record s { size = at; next_offset = next }))
tail_round fuel fine s unread at next (Record.err Record.bad_magic) e rest =
    rw (e, HasBase) (cut_tail-HasBase fine at (record s { size = at; next_offset = next }))
tail_round fuel fine s unread at next Record.panic e rest = rw (e, HasBase) tt

tail_loop-HasBase :
    (fuel : ℕ) (fine : Bool) (s : Segment) (unread : Bytes) (at next : ℕ)
    → HasBase s.base_offset (tail_loop fuel fine s unread at next)
tail_loop-HasBase zero fine s unread at next = unfold tail_loop in tt
tail_loop-HasBase (suc fuel) fine s unread at next =
    tail_round fuel fine s unread at next (decode unread) refl
      (λ u a n. tail_loop-HasBase fuel fine s u a n)

scan_round :
    (fuel : ℕ) (fs : OpenIo) (s : Segment) (unread : Bytes) (at next since : ℕ)
    (read : Record.Result (Record × ℕ))
    → decode unread ≡ read
    → ((fs' : OpenIo) (s' : Segment) (u : Bytes) (a n k : ℕ)
        → HasBase s'.base_offset (scan_loop fuel fs' s' u a n k))
    → HasBase s.base_offset (scan_loop (suc fuel) fs s unread at next since)
unfolding scan_loop
scan_round fuel fs s unread at next since (Record.ok (r, n)) e rest =
    let entry : IndexEntry = record {
      rel_offset = (r.offset + 2 ^ 64 - s.base_offset) % 2 ^ 32;
      position = at % 2 ^ 32;
    } in
    let with_idx = record s { idx = (Index.append (next_write fs.index_writes) s.idx entry).0 } in
    rw (e, HasBase)
      (either_branch (HasBase s.base_offset) (since == 0 || leb s.index_interval since)
        (either_branch (HasBase s.base_offset)
          (Index.append (next_write fs.index_writes) s.idx entry).1 (rest _ with_idx _ _ _ _) tt)
        (rest fs s _ _ _ _))
scan_round fuel fs s unread at next since (Record.err Record.eof) e rest = rw (e, HasBase) refl
scan_round fuel fs s unread at next since (Record.err Record.unexpected_eof) e rest =
    rw (e, HasBase)
      (cut_tail-HasBase fs.truncate_log at
        (record s { size = at; next_offset = next; bytes_since_index = since }))
scan_round fuel fs s unread at next since (Record.err Record.corrupt) e rest =
    rw (e, HasBase)
      (cut_tail-HasBase fs.truncate_log at
        (record s { size = at; next_offset = next; bytes_since_index = since }))
scan_round fuel fs s unread at next since (Record.err Record.bad_magic) e rest =
    rw (e, HasBase)
      (cut_tail-HasBase fs.truncate_log at
        (record s { size = at; next_offset = next; bytes_since_index = since }))
scan_round fuel fs s unread at next since Record.panic e rest = rw (e, HasBase) tt

scan_loop-HasBase :
    (fuel : ℕ) (fs : OpenIo) (s : Segment) (unread : Bytes) (at next since : ℕ)
    → HasBase s.base_offset (scan_loop fuel fs s unread at next since)
scan_loop-HasBase zero fs s unread at next since = unfold scan_loop in tt
scan_loop-HasBase (suc fuel) fs s unread at next since =
    scan_round fuel fs s unread at next since (decode unread) refl
      (λ fs' s' u a n k. scan_loop-HasBase fuel fs' s' u a n k)

recover_from-HasBase :
    (fs : OpenIo) (s : Segment) (entries : List IndexEntry)
    → HasBase s.base_offset (recover_from fs s entries)
unfolding recover_from
recover_from-HasBase fs s [] =
    either_branch (HasBase s.base_offset) fs.truncate_index
      (scan_loop-HasBase _ fs (record s { idx = record { file = []; cursor = 0; entries = [] } }) _
        _ _ _)
      tt
recover_from-HasBase fs s (e ∷ es) = tail_loop-HasBase _ fs.truncate_log s _ _ _

recover-HasBase :
    (fs : OpenIo) (scan_all : Bool) (s : Segment) → HasBase s.base_offset (recover fs scan_all s)
unfolding recover
recover-HasBase fs scan_all s =
    either_branch (HasBase s.base_offset) (s.size == 0) refl (recover_from-HasBase fs s _)

-- A segment that `recover` hands out has the base offset that it had.
pub base_offset-recover :
    (fs : OpenIo) (scan_all : Bool) (s s' : Segment)
    → recover fs scan_all s ≡ ok s'
    → s'.base_offset ≡ s.base_offset
base_offset-recover fs scan_all s s' e =
    subst (HasBase s.base_offset) e (recover-HasBase fs scan_all s)
