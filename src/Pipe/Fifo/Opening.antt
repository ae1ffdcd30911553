-- ===== src/Pipe/Fifo/Opening.antt =====
-- A service over pipes whose functions are those of src/src/pipe/mfkifo.cpp.
use nil_service.Common.{ℕ, ◌≡◌, ◌≢◌, ◌⊎◌, Bool, true, false, none, some, List, [], Bytes}
use nil_service.Service.{Effect}
use nil_service.Pipe.{}
use nil_service.Pipe.Opening.{off, reopen, Fd, Pipe, header, reconnect_read}
use nil_service.Pipe.Fifo.{enxio, eagain, ewouldblock, System, Opened, refused, ensure_fifo}

-- The path is a FIFO's, or one can be made there.
abbrev pub IsUsable : System → Bytes → Type 0
IsUsable sys path = (path ≢ []) × (ensure_fifo sys ≡ true)

-- `open` says that it may succeed later.
abbrev pub IsLater : Opened → Type 0
IsLater o = (o ≡ refused enxio) ⊎ ((o ≡ refused eagain) ⊎ (o ≡ refused ewouldblock))

module _ (note : Bool) (s : Pipe) where
  -- What is left of a service whose `make_read` has been called.
  abbrev pub after : Fd → (Pipe × List Effect) × Bool
  after result = reconnect_read note result s

  -- The reads go on with a descriptor, there will be another try, or there will be none.
  abbrev pub Reads : Fd → ℕ → Type 0
  Reads result n =
      ((after result).0.0.reader ≡ some n)
      × ((after result).0.0.reading ≡ header 0 8)
      × ((after result).1 ≡ true)

  abbrev pub Retries : Fd → Type 0
  Retries result =
      ((after result).0.0.reader ≡ none)
      × ((after result).0.0.retry ≡ reopen)
      × ((after result).1 ≡ true)

  abbrev pub Stops : Fd → Type 0
  Stops result =
      ((after result).0.0.reader ≡ none)
      × ((after result).0.0.retry ≡ off)
      × ((after result).1 ≡ false)
