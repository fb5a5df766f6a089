-- ===== src/Ledger/Outcome.antt =====
-- AbortIO: which answer it gives, and what it means for the request.
use pa6t_eth.Base.{ℕ, ◌+◌, ◌≡◌, is_set, Bool, if◌then◌else◌, count, ◌⊎◌}
use pa6t_eth.Machine.{World, M, ◌>>◌}
use pa6t_eth.Machine.Structs.{EthUnit, IoError, success, ioerr_nocmd}
use pa6t_eth.Ledger.{replies}

-- The answer to an abort: the request was replied to, or it does not wait where `g` counts.
pub record Aborted (r : ℕ) (w : World) (out : IoError × World) : Type 0 where
  pub answer : out.0 ≡ success
  pub replied : replies r out.1.trace ≡ replies r w.trace + 1

pub record Absent (r : ℕ) (g : EthUnit → ℕ) (w : World) (out : IoError × World) : Type 0 where
  pub answer : out.0 ≡ ioerr_nocmd
  pub replied_not : replies r out.1.trace ≡ replies r w.trace
  pub unit_same : out.1.unit ≡ w.unit
  pub waits_not : g w.unit ≡ 0

module _ (r : ℕ) where
  Outcome : (EthUnit → ℕ) → M IoError → Type 0
  Outcome g m = (w : World) → Aborted r w (m w) ⊎ Absent r g w (m w)

  -- The search of the port, where there is one.
  in_port : EthUnit → ℕ
  in_port u = if is_set u.io_port then count r u.port_msgs else 0
