-- ===== src/Endpoint/Fields.antt =====
-- What src/endpoint.rs lets its users read of an endpoint, and how they take a result apart.
use water_rs.Prelude.{ℕ, Outcome, done, panicked}
use water_rs.Endpoint.{Endpoint, IoError, IoResult}

unfoldable pub getsid : Endpoint → ℕ
getsid ep = ep.sid

unfoldable pub geteid : Endpoint → ℕ
geteid ep = ep.eid

unfoldable pub getgid : Endpoint → ℕ
getgid ep = ep.gid

unfoldable pub getrefcnt : Endpoint → ℕ
getrefcnt ep = ep.refcnt

-- `IoResult::ok`.
unfoldable pub value_of {ℓ} : {A : Type ℓ} → IoResult A → Outcome A
value_of (IoResult.ok v) = done v
value_of (IoResult.err e) = panicked

unfoldable pub unwrap {ℓ} : {A : Type ℓ} → IoResult A → Outcome A
unfolding value_of
unwrap result = value_of result

-- `IoResult::err`.
unfoldable pub error_of {ℓ} : {A : Type ℓ} → IoResult A → Outcome IoError
error_of (IoResult.ok v) = panicked
error_of (IoResult.err e) = done e
