-- ===== src/Commands/Bench/Tests.antt =====
-- The shares of three workers, and a scan of one record.
use logship.Prelude.{◌≡◌, arith}
use logship.Commands.Bench.{total, shares, total-shares}

twenty_shared : total (shares 20 3) ≡ 20
twenty_shared = total-shares 20 3 (omega arith)
