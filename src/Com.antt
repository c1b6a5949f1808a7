-- ===== src/Com.antt =====
-- The status codes that the handlers return (HRESULT), as far as the program names them. `other` is
-- a code of the system.
use atzc.Prelude.{ℕ, Bool, true, false}

pub data HResult : Type 0 where
  s_ok s_false e_invalidarg e_pointer e_fail e_notimpl e_nointerface e_outofmemory : HResult
  ts_e_invalidpos : HResult
  other : ℕ → HResult

-- `hr == S_OK`
abbrev pub is_ok : HResult → Bool
is_ok s_ok = true
is_ok _ = false
