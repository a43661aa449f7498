-- ===== src/Services/PolicyScanner/Total.antt =====
-- internal/application/services/policy_scanner_service.go: the service's scanner never fails.
use promptshield_beta.Scanner.Input.{
  Outcome, done, failed, interrupted, Config, reader_loop, Environment, Result, ScanError,
  over_limit, Failure, empty_result,
}
use promptshield_beta.Services.PolicyScanner.{
  scan_text, text_result, Service, TextResult, service_config,
}
use promptshield_beta.Scanner.Evaluate.{Scanner}
use promptshield_beta.Base.{
  [], ℕ, ◌≡◌, List, true, Option, ◌≢◌, some, inr, arith, if-true, ◌∷◌, Option-cases, none, ◌∙◌, ap,
  inl, suc, refl,
}
use promptshield_beta.Base.Text.{Str, bytes}
use promptshield_beta.Scanner.Input.FallBack.{over_limit-quarantine}
use promptshield_beta.Scanner.Input.Reader.{
  tokens_of, reader_round-interrupted, scan_reader-loop, counted, reader_round-limit, with_token,
  reader_round-next,
}

-- An error of the context or the memory becomes a violation.
interrupted-fails :
    (c : Config) (env : Environment) (n : ℕ) (r : Result) (e : ScanError)
    → c.quarantine_on_error ≡ true
    → c.quarantine_on_timeout ≡ true
    → interrupted c env n r ≢ some (failed e)
unfolding interrupted
interrupted-fails c env n r e q q' z = ground (arith, q, q', z)

interrupted-done :
    (c : Config) (env : Environment) (n : ℕ) (r : Result) (o : Outcome)
    → c.quarantine_on_error ≡ true
    → c.quarantine_on_timeout ≡ true
    → interrupted c env n r ≡ some o
    → (r' : Result) × (o ≡ done r')
interrupted-done c env n r (done r') q q' z = (r', refl)
interrupted-done c env n r (failed e) q q' z = absurd (interrupted-fails c env n r e q q' z)

over_limit-done :
    (c : Config) (r : Result) (o : Outcome)
    → c.quarantine_on_error ≡ true
    → over_limit c r ≡ some o
    → (r' : Result) × (o ≡ done r')
over_limit-done c r (done r') q z = (r', refl)
over_limit-done c r (failed e) q z = absurd (over_limit-quarantine c r e q z)

-- With both quarantine switches on, the loop gives a result.
reader_loop-done :
    (s : Scanner) (c : Config) (env : Environment) (name : Str) (n : ℕ) (ts : List Str)
    (err : Option Failure) (r : Result)
    → c.quarantine_on_error ≡ true
    → c.quarantine_on_timeout ≡ true
    → (r' : Result) × (reader_loop s c env name n ts err r ≡ done r')
unfolding reader_loop
reader_loop-done s c env name n [] none r q q' = (r, refl)
reader_loop-done s c env name n [] (some f) r q q' = (_, if-true _ _ q)
reader_loop-done s c env name n (t ∷ ts) err r q q' = elim (Option-cases (interrupted c env n r)) [
  | inr (o, z) ↦
      let (r', e) = interrupted-done c env n r o q q' z in
      (r', reader_round-interrupted s c env name n t ts err r o z ∙ e)
  | inl z ↦ elim (Option-cases (over_limit c (counted t r))) [
    | inr (o, w) ↦
        let (r', e) = over_limit-done c (counted t r) o q w in
        (r', reader_round-limit s c env name n t ts err r o z w ∙ e)
    | inl w ↦
        let (r', e) = reader_loop-done s c env name (suc n) ts err (with_token s t n r) q q' in
        (r', reader_round-next s c env name n t ts err r z w ∙ e)
  ]
]

-- ScanText of the service gives a result on every text, whatever the context and the memory do.
pub scan_text-total :
    {C : Type 0} (to_lower : Str → Str) (env : Environment) (content : Str) (s : Service C)
    → (r : TextResult) × (scan_text to_lower env content s ≡ inr r)
unfolding scan_text text_result
scan_text-total to_lower env content s =
    let sc = s.loaded.scanner in
    let (r, e) =
      reader_loop-done sc service_config env (bytes "policy-test") 0 (tokens_of sc content none).0
        (tokens_of sc content none).1 (empty_result (bytes "policy-test"))
        (unfold service_config in refl) (unfold service_config in refl) in
    (
      _,
      ap (text_result to_lower)
          (scan_reader-loop sc service_config env (bytes "policy-test") content none ∙ e),
    )
