-- ===== src/Agent/Errors.antt =====
-- slurmweb/views/agent.py, handle_slurmrestd_errors: the HTTP errors that stand for the exceptions of
-- the client and of the cache.
use slurm_web.Base.{String, ◌≡◌, refl, Bool, true, false, ◌^^◌, if◌then◌else◌, negsuc, eqb_ℤ, not}
use slurm_web.Py.Value.{Value, int}
use slurm_web.Py.Error.{
  Exn, connection_error, authentication_error, not_found, invalid_response, internal_error,
  cache_error, http_error,
}
use slurm_web.Py.Result.{ok, raised}
use slurm_web.Py.Exec.{Exec, raise, try_except, rescue-ok}

-- err.error != -1
abbrev pub has_number : Value → Bool
has_number (int n) = not (eqb_ℤ n (negsuc 0))
has_number v = true

module _ (format : Value → String) where
  -- the wrapper's message and code; `format` is what an f-string makes of a value
  unfoldable pub translate : Exn → Exn
  translate (not_found err) = http_error 404 ("URL not found on slurmrestd: " ^^ err)
  translate (invalid_response err) = http_error 500 ("Invalid response from slurmrestd: " ^^ err)
  translate (connection_error err) = http_error 500 ("Unable to connect to slurmrestd: " ^^ err)
  translate (authentication_error err) =
      http_error 401 ("Authentication error on slurmrestd: " ^^ err)
  translate (internal_error message error description source) =
      let msg = "slurmrestd error: " ^^ (format description ^^ (" (" ^^ (format source ^^ ")"))) in
      http_error 500 (
        if has_number error
        then msg ^^ (" [" ^^ (format message ^^ ("/" ^^ (format error ^^ "]"))))
        else msg)
  translate (cache_error err) = http_error 500 ("Cache error: " ^^ err)
  translate e = e

  -- slurmrest(method, *args)
  unfoldable pub slurmrest : {S A : Type 0} → Exec S A → Exec S A
  slurmrest m = try_except m (λ e. raise (translate e))

  -- The exceptions of the client and of the cache.
  abbrev pub is_service_error : Exn → Bool
  is_service_error (not_found _) = true
  is_service_error (invalid_response _) = true
  is_service_error (connection_error _) = true
  is_service_error (authentication_error _) = true
  is_service_error (internal_error _ _ _ _) = true
  is_service_error (cache_error _) = true
  is_service_error e = false

  translate-service : (e : Exn) → is_service_error (translate e) ≡ false
  unfolding translate
  translate-service (not_found _) = refl
  translate-service (invalid_response _) = refl
  translate-service (connection_error _) = refl
  translate-service (authentication_error _) = refl
  translate-service (internal_error _ _ _ _) = refl
  translate-service (cache_error _) = refl
  translate-service (Exn.runtime_error _) = refl
  translate-service (Exn.configuration_error _) = refl
  translate-service (Exn.agent_error _) = refl
  translate-service (Exn.metrics_db_error _) = refl
  translate-service (http_error _ _) = refl
  translate-service (Exn.live_error _ _) = refl
  translate-service Exn.connection_closed = refl
  translate-service (Exn.os_error _) = refl
  translate-service (Exn.key_error _) = refl
  translate-service Exn.index_error = refl
  translate-service Exn.value_error = refl
  translate-service Exn.type_error = refl
  translate-service Exn.attribute_error = refl
  translate-service (Exn.other_error _) = refl

  -- The wrapper hands a result on, and raises in place of an exception its translation, which is
  -- none of the exceptions of the client or of the cache; the state is that of the call.
  pub slurmrest-closed :
      {S A : Type 0} (m : Exec S A) (s : S)
      → ((a : A) → (m s).0 ≡ ok a → slurmrest m s ≡ m s)
        × ((e : Exn)
            → (m s).0 ≡ raised e
            → (slurmrest m s ≡ (raised (translate e), (m s).1))
              × (is_service_error (translate e) ≡ false))
  unfolding slurmrest
  slurmrest-closed m s = (
    λ a h. rescue-ok (λ e. raise (translate e)) (m s) a h,
    λ e h. (rw h refl, translate-service e),
  )
