-- ===== src/Log/Open.antt =====
-- Opening a log over the files of its directory, internal/log/log.go: Open and recover.
use logship.Prelude.{
  ℕ, ◌^◌, true, false, Option, none, some, List, [], ◌∷◌, ◌==◌, if◌then◌else◌, Bytes, sort_by, leb,
}
use logship.Segment.{Segment, Result, ok, err, io, create_segment, ◌>>=◌}
use logship.Segment.Open.{OpenIo, open_segment}
use logship.Log.{Config, Log}

-- The two files of one base offset, and what the file system does when they are opened.
pub record SegmentFiles : Type 0 where
  pub base : ℕ
  pub fs : OpenIo
  pub files : Option (Bytes × Bytes)

-- The segments, of which the last one is active.
unfoldable pub open_segments :
    ℕ → SegmentFiles → List SegmentFiles → Result (List Segment × Segment)
open_segments interval f [] = do s ← open_segment f.fs f.files f.base interval true; ok ([], s)
open_segments interval f (g ∷ gs) = do
  s ← open_segment f.fs f.files f.base interval false
  opened ← open_segments interval g gs
  ok (s ∷ opened.0, opened.1)

opened_log : Config → List Segment × Segment → Log
opened_log cfg (ss, s) = record { cfg = cfg; sealed = ss; active = s; hw = 0; appends = 0 }

-- `create` is for the first segment of an empty directory.
unfoldable pub recover : Config → Option Bytes → List SegmentFiles → Result Log
unfolding opened_log
recover cfg create [] = do
  s ← create_segment create 0 cfg.index_interval
  ok (opened_log cfg ([], s))
recover cfg create (f ∷ fs) = do
  opened ← open_segments cfg.index_interval f fs
  ok (opened_log cfg opened)

-- A size or an interval that is not positive is 0 and means the default.
unfoldable pub with_defaults : Config → Config
with_defaults cfg = record {
  max_segment_bytes = if cfg.max_segment_bytes == 0 then 2 ^ 20 else cfg.max_segment_bytes;
  index_interval = if cfg.index_interval == 0 then 4096 else cfg.index_interval;
  fsync_every = cfg.fsync_every;
}

-- The files are those of the directory, in any order, or `none` if it cannot be made or read.
unfoldable pub open_log : Config → Option Bytes → Option (List SegmentFiles) → Result Log
open_log cfg create none = err io
open_log cfg create (some files) =
    recover (with_defaults cfg) create (sort_by (λ f g. leb f.base g.base) files)
