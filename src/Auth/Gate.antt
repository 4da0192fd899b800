-- ===== src/Auth/Gate.antt =====
-- internal/auth/auth.go: the gate and its handlers. What the identity provider answers is a parameter,
-- as is the state that randomToken draws. A header's text is left out of a response.
use Prim.Native.Nat.{ℕ}
use load_observatory.Prelude.{
  ℤ, negsuc, if◌then◌else◌, Bool, true, false, not, List, [], ◌∷◌, Option, none, some, String,
}
use load_observatory.Core.Server.{eqb_text}
use load_observatory.Auth.{
  Bytes, Config, User, Signing, ok, err, eqb_bytes, Cookie, lo_session, lo_oauth_state, state_ttl,
  enabled, sign_session, verify_session,
}

-- The claims that Callback reads of a verified ID token.
pub record IdToken : Type 0 where
  pub subject : String
  pub name : String
  pub preferred_username : String

-- The provider that discovery found: the address of its login page for a state, the ID token text that
-- a code is exchanged for (a failed exchange is `none`, a token without an ID token `some none`), and
-- the verification of that text.
pub record Provider : Type 0 where
  pub auth_code_url : Bytes → String
  pub exchange : String → Option (Option Bytes)
  pub verify_id_token : Bytes → Option IdToken

pub record Gate : Type 0 where
  pub config : Config
  pub provider : Option Provider

-- The status of an answer, the cookies that it sets and where it sends the browser.
pub record Response : Type 0 where
  pub status : ℕ
  pub cookies : List Cookie
  pub location : Option String

abbrev pub refused : ℕ → List Cookie → Response
refused status cookies = record { status = status; cookies = cookies; location = none }

-- discoverUntilReady: the first attempt that succeeds gives the provider.
unfoldable pub discover : List (Option Provider) → Gate → Gate
discover [] gate = gate
discover (none ∷ attempts) gate = discover attempts gate
discover (some provider ∷ attempts) gate = record gate { provider = some provider }

unfoldable pub login : Gate → Bool → Bytes → Response
login gate tls state = elim gate.provider [
  | none ↦ refused 503 []
  | some provider ↦ record {
    status = 302;
    cookies =
        (record {
          name = lo_oauth_state;
          value = state;
          http_only = true;
          secure = tls;
          lax = true;
          max_age = state_ttl;
        })
        ∷ [];
    location = some (provider.auth_code_url state);
  }
]

-- The cookie that makes the browser drop the state.
abbrev pub state_dropped : Cookie
state_dropped = record {
  name = lo_oauth_state;
  value = [];
  http_only = false;
  secure = false;
  lax = false;
  max_age = negsuc 0;
}

-- The name to show: the first of name, preferred username and subject that is not empty.
unfoldable pub user_of : IdToken → User
user_of token =
    let username =
      if eqb_text token.preferred_username "" then token.subject else token.preferred_username in
    record {
      subject = token.subject;
      name = if eqb_text token.name "" then username else token.name;
    }

unfoldable pub logout : Response
logout = record {
  status = 204;
  cookies = (record state_dropped { name = lo_session }) ∷ [];
  location = none;
}

-- Session: the status and the user that it shows.
unfoldable pub session : Option User → ℕ × Option User
session none = (401, none)
session (some user) = (200, some user)

pub data Redeemed : Type 0 where
  refusal : ℕ → Redeemed
  redeemed : IdToken → Redeemed

-- The ID token that a code brings, or the status of the refusal.
unfoldable pub redeem : Provider → String → Redeemed
redeem provider code = elim (provider.exchange code) [
  | none ↦ refusal 502
  | some none ↦ refusal 502
  | some (some raw) ↦ elim (provider.verify_id_token raw) [
    | none ↦ refusal 401
    | some token ↦ redeemed token
  ]
]

module _ (signing : Signing) where
  -- The end of Callback, from the ID token on.
  unfoldable pub start_session : Gate → ℤ → IdToken → Response
  start_session gate now token = elim (sign_session signing gate.config now (user_of token)) [
    | err e ↦ refused 500 (state_dropped ∷ [])
    | ok cookie ↦ record {
      status = 302;
      cookies = state_dropped ∷ cookie ∷ [];
      location = some "/";
    }
  ]

  -- Callback with the state of the query (empty if there is none), the state cookie and the code.
  unfoldable pub callback : Gate → ℤ → Bytes → Option Bytes → String → Response
  unfolding start_session redeem
  callback gate now state expected code = elim gate.provider [
    | none ↦ refused 503 []
    | some provider ↦ elim expected [
      | none ↦ refused 400 []
      | some held ↦
          if not (eqb_bytes state held) then refused 400 [] else elim (redeem provider code) [
            | refusal status ↦ refused status (state_dropped ∷ [])
            | redeemed token ↦ start_session gate now token
          ]
    ]
  ]

  -- Require: `next` is the wrapped handler, given the user of the request.
  unfoldable pub require {ℓ} : {A : Type ℓ} → Gate → ℤ → Option Bytes → (Option User → A) → A → A
  require gate now cookie next unauthorized =
      if not (enabled gate.config) then next none else elim cookie [
        | none ↦ unauthorized
        | some value ↦ elim (verify_session signing gate.config now value) [
          | err e ↦ unauthorized
          | ok user ↦ next (some user)
        ]
      ]
