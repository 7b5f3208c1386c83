-- ===== src/Log/Restart.antt =====
-- Opening a log of internal/log/log.go again after a crash: what its directory holds, and what is
-- in the log then.
use logship.Prelude.{
  ℕ, ◌+◌, ◌^◌, ◌<◌, ◌≡◌, ◌≢◌, ◌⊎◌, inl, inr, refl, ◌∙◌, Bool, true, false, Option, some, List, [],
  ◌∷◌, ◌++◌, leb, length, length-append, All, Bytes, sort_by, arith,
}
use logship.Record.{Record}
use logship.Record.RoundTrip.{IsWire}
use logship.Index
use logship.Segment.{Segment, ok}
use logship.Segment.Contents.{Holds, Consecutive, PointsTo, bytes_of, size_of}
use logship.Segment.Open.{recover, open_segment}
use logship.Segment.Open.Torn.{IsTorn, healthy}
use logship.Segment.Open.Recovery.{recover-active}
use logship.Segment.Open.Sealed.{recover-sealed}
use logship.Segment.Open.Base.{base_offset-recover}
use logship.Log.{Config, Log}
use logship.Log.Chain.{Chain, flat, LogHolds}
use logship.Log.Open
use logship.Log.Open.{SegmentFiles, open_segments, open_log, with_defaults}

-- The two files of a segment that held `rs` when the broker stopped: the records of the log file,
-- and behind them what is left of one more.
pub record Left (from : ℕ) (f : SegmentFiles) (rs : List Record) : Type 0 where
  pub torn : Bytes
  pub index_file : Bytes
  pub base : f.base ≡ from
  pub works : f.fs ≡ healthy
  pub files : f.files ≡ some (bytes_of rs ++ torn, index_file)
  pub is_torn : IsTorn torn
  pub consecutive : Consecutive from rs
  pub wire : All IsWire rs
  pub small : size_of rs < 2 ^ 32

-- A segment that is not the last one is not empty and has an index entry, and its entries name
-- its records.
pub record LeftSealed (base : ℕ) (f : SegmentFiles) (rs : List Record) : Type 0 where
  pub left : Left base f rs
  pub some_bytes : length (bytes_of rs ++ left.torn) ≢ 0
  pub entries : All (PointsTo rs) (Index.load left.index_file).entries
  pub some_entries : (Index.load left.index_file).entries ≢ []

-- The index of the last one is not looked at, but if its log file is empty.
pub record LeftActive (base : ℕ) (f : SegmentFiles) (rs : List Record) : Type 0 where
  pub left : Left base f rs
  pub fresh : (length (bytes_of rs ++ left.torn) ≢ 0) ⊎ ((Index.load left.index_file).entries ≡ [])

-- The directory of a log that held `parts`, of which `last` stood in the active segment.
abbrev pub OnDisk : ℕ → SegmentFiles → List SegmentFiles → List (List Record) → List Record → Type 0
OnDisk base f [] [] last = LeftActive base f last
OnDisk base f (g ∷ gs) (c ∷ cs) last = LeftSealed base f c × OnDisk (base + length c) g gs cs last
OnDisk base _ _ _ last = ⊥

-- A segment as `openSegment` reads it, before it is recovered.
abbrev loaded : ℕ → ℕ → Bytes → Bytes → Segment
loaded base interval log_file index_file = record {
  base_offset = base;
  log_file = log_file;
  idx = Index.load index_file;
  size = length log_file;
  next_offset = 0;
  bytes_since_index = 0;
  index_interval = interval;
}

module _ (base interval : ℕ) (f : SegmentFiles) (rs : List Record) where
  open_left :
      (l : Left base f rs) (active : Bool)
      → open_segment f.fs f.files f.base interval active
        ≡ recover healthy active (loaded base interval (bytes_of rs ++ l.torn) l.index_file)
  unfolding open_segment
  open_left l active = rw (l.base, l.works, l.files)

  open_sealed :
      LeftSealed base f rs
      → (s : Segment) × (open_segment f.fs f.files f.base interval false ≡ ok s)
        × Holds s rs
        × (s.base_offset ≡ base)
  open_sealed d =
      let before = loaded base interval (bytes_of rs ++ d.left.torn) d.left.index_file in
      let (s, e, holds) =
        recover-sealed before rs d.left.torn d.left.consecutive d.left.wire d.left.small
          d.left.is_torn refl d.some_bytes d.entries d.some_entries in
      (s, open_left d.left false ∙ e, holds, base_offset-recover healthy false before s e)

  fresh_index :
      (d : LeftActive base f rs)
      → length (bytes_of rs ++ d.left.torn) ≡ 0
      → (Index.load d.left.index_file).entries ≡ []
  fresh_index d empty = elim d.fresh [
    | inl bytes ↦ absurd (bytes empty)
    | inr none_left ↦ none_left
  ]

  open_active :
      LeftActive base f rs
      → (s : Segment) × (open_segment f.fs f.files f.base interval true ≡ ok s)
        × Holds s rs
        × (s.base_offset ≡ base)
  open_active d =
      let before = loaded base interval (bytes_of rs ++ d.left.torn) d.left.index_file in
      let (s, e, holds) =
        recover-active before rs d.left.torn d.left.consecutive d.left.wire d.left.small
          d.left.is_torn refl refl (fresh_index d) in
      (s, open_left d.left true ∙ e, holds, base_offset-recover healthy true before s e)

-- The segments opened hold the parts, one behind the other.
open_segments-Chain :
    (base interval : ℕ) (f : SegmentFiles) (fs : List SegmentFiles) (parts : List (List Record))
    (last : List Record)
    → OnDisk base f fs parts last
    → (opened : List Segment × Segment) × (open_segments interval f fs ≡ ok opened)
      × Chain base opened.0 parts
      × Holds opened.1 last
      × (opened.1.base_offset ≡ base + length (flat parts))
unfolding open_segments
open_segments-Chain base interval f [] [] last d =
    let (s, e, holds, at) = open_active base interval f last d in
    (([], s), rw e, tt, holds, omega (arith, at))
open_segments-Chain base interval f [] (c ∷ cs) last d = absurd d
open_segments-Chain base interval f (g ∷ gs) [] last d = absurd d
open_segments-Chain base interval f (g ∷ gs) (c ∷ cs) last (here, behind) =
    let (s, e, holds, at) = open_sealed base interval f c here in
    let (opened, e', chain, active, end) =
      open_segments-Chain (base + length c) interval g gs cs last behind in
    (
      (s ∷ opened.0, opened.1),
      rw (e, e'),
      (at, holds, chain),
      active,
      omega (arith, end, length-append c (flat cs)),
    )

-- Opening a directory whose files, in the order of their base offsets, are those that a log left
-- behind when its broker stopped in the middle of an append, with a working file system, gives a log
-- that holds exactly the records that were whole, with a high watermark of 0.
pub open_log-LogHolds :
    (cfg : Config) (create : Option Bytes) (files : List SegmentFiles) (base : ℕ) (f : SegmentFiles)
    (fs : List SegmentFiles) (parts : List (List Record)) (last : List Record)
    → sort_by (λ (a b : SegmentFiles). leb a.base b.base) files ≡ f ∷ fs
    → OnDisk base f fs parts last
    → (l : Log) × (open_log cfg create (some files) ≡ ok l)
      × LogHolds base l parts last
      × (l.hw ≡ 0)
unfolding open_log Open.recover
open_log-LogHolds cfg create files base f fs parts last sorted d =
    let (opened, e, chain, active, end) =
      open_segments-Chain base (with_defaults cfg).index_interval f fs parts last d in
    (
      record { cfg = with_defaults cfg; sealed = opened.0; active = opened.1; hw = 0; appends = 0 },
      rw (sorted, e),
      record { sealed = chain; active = active; active_base = end },
      refl,
    )
