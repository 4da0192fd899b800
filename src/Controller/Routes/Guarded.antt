-- ===== src/Controller/Routes/Guarded.antt =====
-- internal/controller/server.go: which requests pass without a session.
use load_observatory.Prelude.{
  ℕ, ℤ, if◌then◌else◌, ◌≡◌, refl, ◌∙◌, Bool, true, false, ◌&&◌, Bool-cases, ◌⊎◌, inl, inr, List, [],
  ◌∷◌, ◌++◌, Option, some, String, arith,
}
use load_observatory.Core.Target.{Text, eqb}
use load_observatory.Core.Target.Allowed.{eqb→eq}
use load_observatory.Auth.{User, Signing, enabled}
use load_observatory.Auth.Gate.{Gate}
use load_observatory.Auth.Admission.{Admitted, require-Admitted}
use load_observatory.Controller.Routes.{
  codes, starts_with, Method, get, post, Route, human, is_get, is_post, is_at, is_under, is_ending,
  route, HumanRoute, human_route, is_human, serve,
}

starts_with→append :
    (text prefix : Text) → starts_with text prefix ≡ true → (rest : Text) × (text ≡ prefix ++ rest)
unfolding starts_with
starts_with→append text [] h = (text, refl)
starts_with→append [] (c ∷ prefix) h = cc
starts_with→append (d ∷ text) (c ∷ prefix) h = elim (Bool-cases (eqb (d ∷ []) (c ∷ []))) [
  | inr differ ↦ absurd (let e = rw differ at h in cc)
  | inl same ↦
      let (rest, e) = starts_with→append text prefix (rw same at h) in
      let first : (d ∷ []) ≡ (c ∷ []) = eqb→eq (d ∷ []) (c ∷ []) same in (rest, cc)
]

is_get→eq : (method : Method) → is_get method ≡ true → method ≡ get
is_get→eq get h = refl
is_get→eq _ h = cc

is_post→eq : (method : Method) → is_post method ≡ true → method ≡ post
is_post→eq post h = refl
is_post→eq _ h = cc

-- A path that begins with a text.
abbrev pub Under : Text → String → Type 0
Under path prefix = (rest : Text) × (path ≡ codes prefix ++ rest)

-- The requests that are open: the sign-in, the health check, the capture proxy and the agents.
abbrev pub IsOpen : Method → Text → Type 0
IsOpen method path =
    Under path "/auth/"
    ⊎ (((method ≡ get) × (path ≡ codes "/api/health"))
        ⊎ ((method ≡ post) × (Under path "/capture/" ⊎ Under path "/api/agent/")))

and_parts : (a b : Bool) → a && b ≡ true → (a ≡ true) × (b ≡ true)
and_parts a b h = (ground arith, ground arith)

-- A path under a longer text is under a shorter one.
at→Under :
    (path : Text) (place prefix : String) (rest : Text)
    → is_at path place ≡ true
    → codes place ≡ codes prefix ++ rest
    → Under path prefix
at→Under path place prefix rest h e = (rest, eqb→eq path (codes place) h ∙ e)

route-IsOpen :
    (method : Method) (path : Text) → is_human (route method path) ≡ false → IsOpen method path
unfolding route
route-IsOpen method path h = elim (Bool-cases (is_at path "/auth/login")) [
  | inl a ↦ inl (at→Under path "/auth/login" "/auth/" (codes "login") a refl)
  | inr a ↦ elim (Bool-cases (is_at path "/auth/callback")) [
    | inl b ↦ inl (at→Under path "/auth/callback" "/auth/" (codes "callback") b refl)
    | inr b ↦ elim (Bool-cases (is_at path "/auth/logout")) [
      | inl c ↦ inl (at→Under path "/auth/logout" "/auth/" (codes "logout") c refl)
      | inr c ↦ elim (Bool-cases (is_get method && is_at path "/api/health")) [
        | inl d ↦
            let (m, p) = and_parts (is_get method) (is_at path "/api/health") d in
            inr (inl (is_get→eq method m, eqb→eq path (codes "/api/health") p))
        | inr d ↦ elim (Bool-cases (is_post method && is_under path "/capture/")) [
          | inl e ↦
              let (m, p) = and_parts (is_post method) (is_under path "/capture/") e in
              inr (inr (is_post→eq method m, inl (starts_with→append path (codes "/capture/") p)))
          | inr e ↦ inr (inr (agents (rw (a, b, c, d, e) at h)))
        ]
      ]
    ]
  ]
]
  where
    runs→Open :
        (c : Bool)
        → is_post method && is_under path "/api/agent/runs/" && c ≡ true
        → (method ≡ post) × (Under path "/capture/" ⊎ Under path "/api/agent/")
    runs→Open c k =
        let m : is_post method ≡ true = ground arith in
        let p : is_under path "/api/agent/runs/" ≡ true = ground arith in
        let (rest, e) = starts_with→append path (codes "/api/agent/runs/") p in
        (is_post→eq method m, inr (codes "runs/" ++ rest, e))

    agents :
        is_human (
            if is_post method && is_at path "/api/agent/heartbeat"
            then Route.heartbeat
            else if is_post method && is_at path "/api/agent/claim"
            then Route.claim
            else if is_post method && is_under path "/api/agent/runs/" && is_ending path "/result"
            then Route.shard_result
            else if is_post method && is_under path "/api/agent/runs/" && is_ending path "/progress"
            then Route.shard_progress
            else human)
          ≡ false
        → (method ≡ post) × (Under path "/capture/" ⊎ Under path "/api/agent/")
    agents k = elim (Bool-cases (is_post method && is_at path "/api/agent/heartbeat")) [
      | inl a ↦
          let (m, p) = and_parts (is_post method) (is_at path "/api/agent/heartbeat") a in
          (
            is_post→eq method m,
            inr (at→Under path "/api/agent/heartbeat" "/api/agent/" (codes "heartbeat") p refl),
          )
      | inr a ↦ elim (Bool-cases (is_post method && is_at path "/api/agent/claim")) [
        | inl b ↦
            let (m, p) = and_parts (is_post method) (is_at path "/api/agent/claim") b in
            (
              is_post→eq method m,
              inr (at→Under path "/api/agent/claim" "/api/agent/" (codes "claim") p refl),
            )
        | inr b ↦
            elim (Bool-cases
              (is_post method && is_under path "/api/agent/runs/" && is_ending path "/result")) [
                | inl c ↦ runs→Open (is_ending path "/result") c
                | inr c ↦
                    elim (Bool-cases (
                      is_post method
                      && is_under path "/api/agent/runs/"
                      && is_ending path "/progress")) [
                        | inl d ↦ runs→Open (is_ending path "/progress") d
                        | inr d ↦ absurd (let e = rw (a, b, c, d) at k in cc)
                      ]
              ]
      ]
    ]

-- With sign-in on, a request is refused, or its cookie is a valid session and the user of that session
-- gets the answer of serveHumanAPI, or its path is one of the open ones and needs no session.
pub serve-Guarded {ℓ} :
    {A : Type ℓ} (signing : Signing) (gate : Gate) (now : ℤ) (method : Method) (path : Text)
    (cookie : Option (List ℕ)) (public : Route → A) (private : HumanRoute → Option User → A)
    (unauthorized : A)
    → enabled (gate.config) ≡ true
    → (serve signing gate now method path cookie public private unauthorized ≡ unauthorized)
      ⊎ (((user : User) × (Admitted signing gate.config now cookie user
              × (serve signing gate now method path cookie public private unauthorized
                  ≡ private (human_route method path) (some user))))
          ⊎ (IsOpen method path
              × (serve signing gate now method path cookie public private unauthorized
                  ≡ public (route method path))))
unfolding serve
serve-Guarded signing gate now method path cookie public private unauthorized on =
    elim (Bool-cases (is_human (route method path))) [
      | inl gated ↦
          elim (require-Admitted signing gate now cookie (private (human_route method path))
            unauthorized on) [
              | inl refused ↦ inl (rw gated refused)
              | inr (user, admitted, same) ↦ inr (inl (user, (admitted, rw gated same)))
            ]
      | inr open_path ↦ inr (inr (route-IsOpen method path open_path, rw open_path refl))
    ]
