-- ===== src/Llms/Errors/Tree.antt =====
-- llms/error.go: what wrapping an error keeps.
use maestro_llms.Base.{String, ◌≡◌, arith}
use maestro_llms.Llms.Errors.{GoError, retryable, retry_after}

-- Wrapping an error by fmt.Errorf and a `%w` changes neither whether it is retried nor its hint.
pub retryable-errorf :
    (s : String) (e : GoError)
    → (retryable (GoError.errorf s e) ≡ retryable e)
      × (retry_after (GoError.errorf s e) ≡ retry_after e)
unfolding retryable retry_after
retryable-errorf s e = ground arith
