-- ===== src/Sound/Errors.antt =====
-- The errors that a computation of src/xair.c may end with.
use xair.Prelude.{Bool, true, false}
use xair.Status.{Error, oom, bad_arg, range, unsupported, Result, ret, err}

-- A result, or an error that is allowed.
abbrev pub fails_in : {A : Type 0} → (Error → Bool) → Result A → Bool
fails_in allowed (ret a) = true
fails_in allowed (err e) = allowed e

abbrev pub is_oom : Error → Bool
is_oom oom = true
is_oom _ = false

abbrev pub is_range : Error → Bool
is_range range = true
is_range _ = false

abbrev pub is_unsupported : Error → Bool
is_unsupported unsupported = true
is_unsupported _ = false

-- What an access to memory may fail with: a bad argument where its bytes wrap.
abbrev pub access_error : (wraps : Bool) → Error → Bool
access_error wraps oom = true
access_error wraps range = true
access_error wraps bad_arg = wraps
access_error wraps _ = false
