-- ===== src/Controller/Proxy/Admitted.antt =====
-- internal/controller/capture.go: which requests captureCompletion forwards.
use load_observatory.Prelude.{
  ℕ, ℤ, ◌≤◌, ltb, ◌≡◌, refl, ◌⊎◌, inl, inr, true, false, not, ◌||◌, Bool-cases, Option-cases, [],
  Option, none, some, String, length, arith,
}
use load_observatory.Prelude.Floats.{Floats}
use load_observatory.Prelude.Map.{lookup}
use load_observatory.Core.Server.{eqb_text}
use load_observatory.Core.Types.{Target}
use load_observatory.Core.Target.{Text, trim, is_space, is_blank}
use load_observatory.Store.{MemoryStore}
use load_observatory.Store.Captures
use load_observatory.Store.Captures.{Sessions}
use load_observatory.Controller.Changes.{is_model}
use load_observatory.Controller.Proxy.{capture_credentials}
use load_observatory.Controller.Proxy.Events.{CaptureResponse}
use load_observatory.Controller.Proxy.Completion.{
  CaptureRequest, Body, too_large, undecoded, decoded, Upstream, bad_url, failed, streamed, plain,
  ProxyRequest, ProxyResponse, record_capture, forward, for_target, complete_for,
  capture_completion,
}

Body-cases :
    (body : Body)
    → (body ≡ too_large)
      ⊎ ((body ≡ undecoded) ⊎ ((input : CaptureRequest) × (body ≡ decoded input)))
Body-cases too_large = inl refl
Body-cases undecoded = inr (inl refl)
Body-cases (decoded input) = inr (inr (input, refl))

module _ {F : Type 0} ⦃fl : Floats F⦄ (decode : Text → Option CaptureResponse)
    (digest : ℕ → Text → ℕ) (visit : Sessions → Sessions) where
  -- A refusal: the store is as it was, and nothing of the target's is sent.
  abbrev pub Refuses : MemoryStore F → MemoryStore F × ProxyResponse → Type 0
  Refuses s (after, response) = (400 ≤ response.status) × (after ≡ s) × (response.forwarded ≡ [])

  -- The request that is forwarded, and what becomes of it: only the captures change.
  abbrev pub Forwards :
      MemoryStore F
      → ProxyRequest
      → ℤ
      → ℤ
      → (Target → Upstream)
      → MemoryStore F × ProxyResponse
      → Type 0
  Forwards s request started now upstream outcome =
      (id : ℕ) × (target : Target) × (input : CaptureRequest) × (request.target ≡ some id)
      × (lookup id s.targets ≡ some target)
      × (is_model target.type ≡ true)
      × (is_blank (trim is_space request.raw_session) ≡ false)
      × (length (trim is_space request.raw_session) ≤ 256)
      × (request.body ≡ decoded input)
      × (outcome
          ≡ forward decode digest visit s id request.client (trim is_space request.raw_session)
              input started now (upstream target))
      × (outcome.0 ≡ record s { captures = outcome.0.captures })

  forward-captures :
      (s : MemoryStore F) (id : ℕ) (client : Text) (raw : Text) (input : CaptureRequest)
      (started now : ℤ) (answer : Upstream)
      → let after = (forward decode digest visit s id client raw input started now answer).0 in
        after ≡ record s { captures = after.captures }
  unfolding forward record_capture Captures.record_capture
  forward-captures s id client raw input started now bad_url = refl
  forward-captures s id client raw input started now failed = refl
  forward-captures s id client raw input started now (streamed status lines) = refl
  forward-captures s id client raw input started now (plain status read_at body) = refl

  for_target-Settles :
      (s : MemoryStore F) (id : ℕ) (target : Target) (request : ProxyRequest) (started now : ℤ)
      (upstream : Target → Upstream)
      → request.target ≡ some id
      → lookup id s.targets ≡ some target
      → let outcome = for_target decode digest visit s id target request started now upstream in
        Refuses s outcome ⊎ Forwards s request started now upstream outcome
  unfolding for_target
  for_target-Settles s id target request started now upstream path found =
      let raw = trim is_space request.raw_session in
      elim (Bool-cases (is_model target.type)) [
        | inr other ↦ inl (rw (other, for_target) (omega arith, refl, refl))
        | inl model ↦ elim (Bool-cases (is_blank raw || ltb 256 (length raw))) [
          | inl bad ↦ inl (rw (model, for_target) (rw bad (omega arith, refl, refl)))
          | inr good ↦ elim (Body-cases request.body) [
            | inl large ↦ inl (rw (model, for_target) (rw (good, large) (omega arith, refl, refl)))
            | inr (inl broken) ↦
                inl (rw (model, for_target) (rw (good, broken) (omega arith, refl, refl)))
            | inr (inr (input, body)) ↦
                let same : for_target decode digest visit s id target request started now upstream
                    ≡ forward decode digest visit s id request.client raw input started now
                        (upstream target) =
                  rw (model, for_target) (rw (good, body) refl) in
                inr (
                  id,
                  target,
                  input,
                  path,
                  found,
                  model,
                  ground arith,
                  ground arith,
                  body,
                  same,
                  rw same (
                      forward-captures s id request.client raw input started now (upstream target)),
                )
          ]
        ]
      ]

  complete_for-Settles :
      (s : MemoryStore F) (path : Option ℕ) (request : ProxyRequest) (started now : ℤ)
      (upstream : Target → Upstream)
      → request.target ≡ path
      → let outcome = complete_for decode digest visit s path request started now upstream in
        Refuses s outcome ⊎ Forwards s request started now upstream outcome
  unfolding complete_for
  complete_for-Settles s none request started now upstream e = inl (omega arith, refl, refl)
  complete_for-Settles s (some id) request started now upstream e =
      elim (Option-cases (lookup id s.targets)) [
        | inl missing ↦ inl (rw (missing, complete_for) (omega arith, refl, refl))
        | inr (target, found) ↦
            rw (found, complete_for)
              (for_target-Settles s id target request started now upstream e found)
      ]

  -- A capture is refused, and changes nothing; or its token has the hash of the configured one, its target
  -- is a model that is stored, it names its session, and its body is read: then it is forwarded to that
  -- target, and nothing of the store changes but the captures.
  pub capture_completion-Settles :
      (hash : Text → String) (env : String) (s : MemoryStore F) (request : ProxyRequest)
      (started now : ℤ) (upstream : Target → Upstream)
      → let outcome =
          capture_completion decode digest visit hash env s request started now upstream in
        Refuses s outcome
        ⊎ (((capture_credentials env s.capture_settings).1 ≡ true)
            × (eqb_text (hash request.token) (capture_credentials env s.capture_settings).0 ≡ true)
            × Forwards s request started now upstream outcome)
  unfolding capture_completion
  capture_completion-Settles hash env s request started now upstream =
      let (token_hash, enabled, configured) = capture_credentials env s.capture_settings in
      elim (Bool-cases (not configured || not enabled)) [
        | inl closed ↦ inl (rw closed (omega arith, refl, refl))
        | inr open_proxy ↦ elim (Bool-cases (eqb_text (hash request.token) token_hash)) [
          | inr wrong ↦ inl (rw (open_proxy, wrong) (omega arith, refl, refl))
          | inl right ↦
              elim (complete_for-Settles s request.target request started now upstream refl) [
                | inl refused ↦ inl (rw (open_proxy, right) refused)
                | inr forwarded ↦ inr (rw (open_proxy, right) (ground arith, refl, forwarded))
              ]
        ]
      ]
