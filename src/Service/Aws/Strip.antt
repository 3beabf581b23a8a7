-- ===== src/Service/Aws/Strip.antt =====
-- Which headers are left out on the way to AWS.
use Prim.Native.Char.{Char, code}
use oes_birger.Prelude.{
  ℕ, String, ◌==◌, eq_iff, ◌≡◌, ◌≢◌, refl, eqb, ◌||◌, Bool-cases, inl, inr, ap, sym, Bool, true,
  false, List, [], ◌∷◌, Option, ◌∙◌, arith, lookup,
}
use oes_birger.Text.{concat, map_text, lower_char, translate, upper_letters, lower_letters}
use oes_birger.Tunnel.Messages.{HttpHeader, OpenHttpTunnelRequest}
use oes_birger.Tunnel.Headers.{Header, values_of, header_add_all}
use oes_birger.Tunnel.Request.{HttpResponse}
use oes_birger.Jwt.{Registry, Mutation}
use oes_birger.Service.Outgoing.{OutgoingRequest}
use oes_birger.Service.Handler.Headers.{values_for, values_of-add_headers}
use oes_birger.Service.Aws.Make.{AwsEndpoint}
use oes_birger.Service.Aws.Execute.{Signer, timestamp_of, signed, bare_request, sign_request}
use oes_birger.Service.Handler.{add_headers}
use oes_birger.Service.Aws.{to_lower, is_skipped, Target, actual_url, aws_headers}

has : ℕ → String → Bool
has x String.[] = false
has x (String.◌∷◌ c s) = eqb x (code c) || has x s

is_paired : String → String → Bool
is_paired String.[] String.[] = true
is_paired (String.◌∷◌ c s) (String.◌∷◌ d t) = is_paired s t
is_paired _ _ = false

-- A character that is translated away does not come out.
translate-away :
    (source target : String) (c : Char) (x : ℕ)
    → is_paired source target ≡ true
    → has x target ≡ false
    → code (translate source target c) ≡ x
    → (has x source ≡ false) × (code c ≡ x)
unfolding translate has is_paired
translate-away String.[] String.[] c x p h e = (refl, e)
translate-away String.[] (String.◌∷◌ d t) c x p h e = (refl, e)
translate-away (String.◌∷◌ b s) String.[] c x p h e = cc p
translate-away (String.◌∷◌ b s) (String.◌∷◌ d t) c x p h e = ground (arith, translate-away s t c x)

head_code : String → ℕ
head_code String.[] = 0
head_code (String.◌∷◌ c s) = code c

head_code-to_lower :
    (s : String) (x : ℕ)
    → has x lower_letters ≡ false
    → has x upper_letters ≡ true
    → (x ≡ 0 → ⊥)
    → head_code (to_lower s) ≢ x
unfolding head_code to_lower map_text lower_char is_paired
head_code-to_lower String.[] x l u z e = z (sym e)
head_code-to_lower (String.◌∷◌ c s) x l u z e =
    cc (u, (translate-away upper_letters lower_letters c x refl l e).0)

-- A name that begins with a capital letter is no text in lower case.
capital-apart :
    (name s : String)
    → has (head_code name) lower_letters ≡ false
    → has (head_code name) upper_letters ≡ true
    → (head_code name ≡ 0 → ⊥)
    → (name == to_lower s) ≡ false
capital-apart name s l u z = elim (Bool-cases (name == to_lower s)) [
  | inl same ↦ absurd (
      head_code-to_lower s (head_code name) l u z
        (ap head_code (sym ((eq_iff name (to_lower s)).0 same))))
  | inr other ↦ other
]

is_skipped-false : (header : HttpHeader) → is_skipped header ≡ false
unfolding is_skipped lookup head_code has
is_skipped-false header = ground (
  arith,
  capital-apart "Authorization" header.name refl refl (λ e. omega arith),
  capital-apart "Connection" header.name refl refl (λ e. omega arith),
  capital-apart "X-Amz-Content-Sha256" header.name refl refl (λ e. omega arith),
  capital-apart "X-Opsmx-Original-Host" header.name refl refl (λ e. omega arith),
  capital-apart "X-Opsmx-Original-Port" header.name refl refl (λ e. omega arith),
  capital-apart "X-Opsmx-Signing-Region" header.name refl refl (λ e. omega arith),
  capital-apart "X-Opsmx-Service-Signing-Name" header.name refl refl (λ e. omega arith),
)

-- The loop is that of a response at the client, which leaves nothing out.
aws_headers-add_headers :
    (headers : List HttpHeader) (out : Header) → aws_headers headers out ≡ add_headers headers out
unfolding aws_headers add_headers
aws_headers-add_headers [] out = refl
aws_headers-add_headers (header ∷ headers) out =
    rw (is_skipped-false header)
      (aws_headers-add_headers headers (header_add_all header.name header.values out))

-- A request to the host and port of its headers, with all the headers that came over the tunnel.
pub record IsUnstripped (t : Target) (req : OpenHttpTunnelRequest) (r : OutgoingRequest)
    : Type 0 where
  pub method : r.method ≡ req.method
  pub url : r.url ≡ concat ("https://" ∷ t.host ∷ ":" ∷ t.port ∷ req.uri ∷ [])
  pub body : r.body ≡ req.body
  pub header : (key : String) → values_of key r.header ≡ values_for key req.headers

-- What the signer is given, for the service, the region and the time of the target, is a request with the
-- method, the URI and the body of that which came over the tunnel, to the host and port of the target, which has, under each name, all the values that came for it in any spelling, in order: no header is
-- left out before the request is signed, not even those in the map of the headers to strip.
pub sign_request-IsUnstripped :
    (now : ℕ) (sign : Signer) (parse_time : String → Option ℕ) (a : AwsEndpoint) (t : Target)
    (reg : Registry) (m : Mutation) (build : OutgoingRequest → Bool)
    (respond : OutgoingRequest → Option HttpResponse) (req : OpenHttpTunnelRequest)
    → (r : OutgoingRequest) × (sign_request reg m now sign parse_time build respond a t req
        ≡ signed
            (sign a r t.signer_service t.signing_region (timestamp_of parse_time now t.timestamp)))
      × IsUnstripped t req r
unfolding sign_request actual_url lookup
sign_request-IsUnstripped now sign parse_time a t reg m build respond req = (
  record (bare_request reg m now sign parse_time build respond t req) {
    header = aws_headers req.headers [];
  },
  refl,
  record {
    method = refl;
    url = refl;
    body = refl;
    header = λ key.
        ap (values_of key) (aws_headers-add_headers req.headers [])
        ∙ values_of-add_headers key req.headers [];
  },
)
