-- ===== src/OAuth/Tests.antt =====
-- A login with a provider, over a store in memory.
use gomyadmin.Base.{
  arith, ◌+◌, ◌-◌, ◌≤◌, ◌≡◌, refl, sym, ap, true, false, Option, none, some, [], ◌∷◌, ◌++◌, Str,
  str_beq, str_eq,
}
use gomyadmin.Base.Int.{pos}
use gomyadmin.Text.{lit, split_byte}
use gomyadmin.Text.Laws.{Lacks}
use gomyadmin.Dict.{lookup, insert}
use gomyadmin.Access.{Actor}
use gomyadmin.Session.{Draw}
use gomyadmin.Session.Memory
use gomyadmin.Session.Memory.{MemorySessionStore, memory_session_store}
use gomyadmin.Session.Manager.{SessionManager, Cookie, start}
use gomyadmin.Server.Meta.{first_non_empty}
use gomyadmin.OAuth.{
  OAuthState, OAuthStateManager, OAuthCookie, Codec, max_age, cookie_name, sign, verify_signed,
  begun, begin, verify_payload, verify_cookie, verify,
}
use gomyadmin.OAuth.State.{Laws, verify-begin}
use gomyadmin.OAuth.Handlers.{
  Identity, Provider, Config, logged_in, redirect_uri, flow_of, log_in, resolve_actor,
  finish_callback, handle_callback,
}
use gomyadmin.OAuth.Handlers.Login.{handle_callback_sound}

-- A stand-in for base64: bytes from 100 on, so that there is no dot.
abbrev encode : Str → Str
encode [] = []
encode (c ∷ s) = (c + 100) ∷ encode s

abbrev decode : Str → Str
decode [] = []
decode (c ∷ s) = (c - 100) ∷ decode s

decode-encode : (s : Str) → decode (encode s) ≡ s
decode-encode [] = refl
decode-encode (c ∷ s) = let later = decode-encode s in ground (arith, later)

encode-Lacks : (s : Str) → Lacks b'.' (encode s)
encode-Lacks [] = tt
encode-Lacks (c ∷ s) = ((λ e. omega (arith, e)), encode-Lacks s)

abbrev marshal : OAuthState → Option Str
marshal s = some (s.requested_at ∷ s.state)

abbrev unmarshal : Str → Option OAuthState
unmarshal (t ∷ state) = some (record {
  provider = lit "google";
  state = state;
  success_url = lit "http://elsewhere";
  failure_url = lit "/failed";
  requested_at = t;
})
unmarshal [] = none

abbrev codec : Codec
codec = record {
  hmac = λ secret payload. encode (secret ++ payload);
  encode = encode;
  decode = λ s. some (decode s);
  marshal = marshal;
  unmarshal = unmarshal;
}

abbrev manager : OAuthStateManager
manager = record { signing_secret = lit "k"; cookie_name = []; secure = true }

abbrev flow : OAuthState
flow = record {
  provider = lit "google";
  state = lit "n";
  success_url = lit "http://elsewhere";
  failure_url = lit "/failed";
  requested_at = 50;
}

laws : Laws codec manager flow
laws = record {
  decoded = λ payload. ap some (decode-encode payload);
  plain = encode-Lacks;
  hex = λ payload. encode-Lacks (lit "k" ++ payload);
  read_back = read_back;
}
  where
    read_option : Option Str → Option OAuthState
    read_option none = none
    read_option (some text) = unmarshal text

    read_back : (payload : Str) → marshal flow ≡ some payload → unmarshal payload ≡ some flow
    read_back payload h = ap read_option (sym h)

abbrev google : Provider
google = record {
  authorization_url = λ uri nonce. uri ++ nonce;
  exchange = λ code uri. some (record {
    provider = lit "google";
    subject = code;
    email = lit "a@x";
    name = [];
    access_token = [];
  });
}

abbrev ann : Actor
ann = record {
  id = lit "u1";
  email = lit "a@x";
  name = [];
  tenant_id = [];
  roles = [];
  permissions = [];
}

abbrev config : Config
config = record {
  providers = (lit "google", google) ∷ [];
  public_url = lit "https://me";
  success_url = lit "/";
  failure_url = lit "/failed";
  resolve = some (λ name identity. some (some ann));
}

abbrev cookie : OAuthCookie
cookie = record {
  name = lit "gomyadmin_oauth";
  value = encode (50 ∷ lit "n") ++ (lit "." ++ encode (lit "k" ++ 50 ∷ lit "n"));
  secure = true;
}

begin_run :
    begin codec manager
      (some (lit "n"))
      50
      (flow_of config (lit "google") (lit "http://elsewhere") [])
    ≡ some (lit "n", cookie)
unfolding begin begun sign cookie_name flow_of first_non_empty str_beq
begin_run = refl

begun_run :
    begun codec manager
      (some (lit "n"))
      50
      (flow_of config (lit "google") (lit "http://elsewhere") [])
    ≡ some flow
unfolding begun flow_of first_non_empty str_beq
begun_run = refl

-- The URL of a flow is what the query of its start says, on any host.
verify-begin_example :
    verify codec manager ((lit "gomyadmin_oauth", cookie.value) ∷ []) (lit "n") 60 ≡ some flow
unfolding insert
verify-begin_example =
    verify-begin codec manager (some (lit "n")) 50 60
      (flow_of config (lit "google") (lit "http://elsewhere") []) flow (lit "n") cookie [] laws
      begun_run begin_run

abbrev draw : Draw
draw = record { token = some (lit "tok"); now = 60; now_after = 61 }

abbrev sessions : SessionManager
sessions = record { cookie_name = lit "sid"; ttl = pos 5; secure = true; same_site = 2 }

abbrev session_cookie : Cookie
session_cookie = record {
  name = lit "sid";
  value = lit "tok";
  expires = 65;
  is_removal = false;
  secure = true;
  same_site = 2;
}

abbrev identity : Identity
identity = record {
  provider = lit "google";
  subject = lit "c";
  email = lit "a@x";
  name = [];
  access_token = [];
}

callback_run :
    (handle_callback codec manager config memory_session_store sessions
      (lit "google")
      (lit "n")
      (lit "c")
      ((lit "gomyadmin_oauth", cookie.value) ∷ [])
      60
      draw
      (record { sessions = [] })).1
    ≡ logged_in ann (lit "google") identity session_cookie (lit "http://elsewhere")
unfolding handle_callback lookup verify cookie_name str_beq verify_cookie verify_signed sign
    split_byte verify_payload finish_callback resolve_actor log_in start Memory.create insert
callback_run = refl

handle_callback_sound_example :
    (payload : Str) × (f : OAuthState) × (provider : Provider) × (resolve : Str
      → Identity
      → Option (Option Actor))
    × (lookup (cookie_name manager) ((lit "gomyadmin_oauth", cookie.value) ∷ [])
        ≡ some (sign codec manager payload))
    × (unmarshal payload ≡ some f)
    × (f.state ≡ lit "n")
    × (60 ≤ f.requested_at + max_age)
    × (lookup (lit "google") config.providers ≡ some provider)
    × (config.resolve ≡ some resolve)
    × (provider.exchange (lit "c") (redirect_uri config (lit "google")) ≡ some identity)
    × (resolve (lit "google") identity ≡ some (some ann))
    × (lit "http://elsewhere" ≡ f.success_url)
handle_callback_sound_example =
    handle_callback_sound codec manager config memory_session_store sessions (lit "google")
      (lit "n") (lit "c") ((lit "gomyadmin_oauth", cookie.value) ∷ []) 60 draw
      (record { sessions = [] }) ann (lit "google") identity session_cookie (lit "http://elsewhere")
      callback_run
