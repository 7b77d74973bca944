-- ===== src/Doh/Limits.antt =====
-- The length of the messages of src/web/doh/mod.rs, and requests that are too short.
use goatns.Prelude.{
  ℕ, zero, suc, ◌≤◌, ◌<◌, true, false, Option, some, ◌≡◌, ◌≢◌, refl, sym, ap, subst, ◌∙◌, inl, inr,
  [], ◌∷◌, ltb, leb, Bool-cases, if◌then◌else◌, length, Result, ok, panic, ◌>>=◌, bind-eq-ok,
  ok-injective, Bytes, arith,
}
use goatns.Datastore.{Tables}
use goatns.Name.{header_bytes}
use goatns.Reply.{Reply, reply_as_bytes}
use goatns.Server.{Backend, slice, parse_query}
use goatns.Doh.{
  Outside, ResponseType, Response, GetQueryString, parse_raw_http, get_response_type_from_headers,
  or_500, decoded, get_query, accepted_get, handle_get, resize, post_bytes, accepted_post,
  handle_post,
}
use goatns.Doh.Responses.{Holds, or_500-Holds, Holds-response}

length-resize : (n : ℕ) (bytes : Bytes) → length (resize n bytes) ≡ n
unfolding resize
length-resize zero bytes = refl
length-resize (suc n) [] = ap suc (length-resize n [])
length-resize (suc n) (b ∷ bytes) = ap suc (length-resize n bytes)

resized_limit :
    (r : Result Bytes) {bytes : Bytes}
    → (r >>= λ again. ok (resize 65535 again)) ≡ ok bytes
    → length bytes ≤ 65535
resized_limit r e =
    let (again, _, cut) = bind-eq-ok r (λ again. ok (resize 65535 again)) e in
    subst (λ b. length b ≤ 65535) (ok-injective cut) (omega (arith, length-resize 65535 again))

abbrev flagged : Reply → Reply
flagged reply = record reply { header = record reply.header { truncated = true } }

post_bytes_limit :
    (std : Outside) (reply : Reply) (value : Bytes) {bytes : Bytes}
    → post_bytes std reply value ≡ ok bytes
    → length bytes ≤ 65535
unfolding post_bytes
post_bytes_limit std reply value {bytes} e = elim (Bool-cases (ltb 65535 (length value))) [
  | inl long ↦
      resized_limit (reply_as_bytes std.codec std.platform (flagged reply))
        (ap (λ b. if b then again else ok value) (sym long) ∙ e)
  | inr short ↦
      let same : value ≡ bytes =
        ok-injective (ap (λ b. if b then again else ok value) (sym short) ∙ e) in
      subst (λ b. length b ≤ 65535) same (ground arith)
]
  where
    again : Result Bytes
    again =
        reply_as_bytes std.codec std.platform (flagged reply) >>= λ bytes. ok (resize 65535 bytes)

-- The body of the message fits the length of a DNS message.
abbrev IsShort : Response → Type 0
IsShort (Response.message max_age bytes) = length bytes ≤ 65535
IsShort _ = Unit

accepted_post-IsShort :
    (std : Outside) (datastore : Backend) (body : Bytes) (response_type : ResponseType)
    → Holds IsShort (accepted_post std datastore body response_type)
unfolding accepted_post
accepted_post-IsShort std datastore body ResponseType.json = tt
accepted_post-IsShort std datastore body ResponseType.invalid = tt
accepted_post-IsShort std datastore body ResponseType.raw =
    or_500-Holds IsShort (parse_query std.codec std.lowercase datastore (length body) body) _ tt
      (λ reply _.
        or_500-Holds IsShort (reply_as_bytes std.codec std.platform reply) _ tt (λ value _.
          or_500-Holds IsShort (post_bytes std reply value) _ tt
            (λ bytes e. post_bytes_limit std reply value e)))

-- The body of every message that answers a POST is at most 65,535 bytes.
pub handle_post-limit :
    (std : Outside) (datastore : Backend) (accept : Option Bytes) (body : Bytes) {max_age : ℕ}
    {bytes : Bytes}
    → handle_post std datastore accept body ≡ ok (Response.message max_age bytes)
    → length bytes ≤ 65535
unfolding handle_post
handle_post-limit std datastore accept body e =
    Holds-response IsShort (handle_post std datastore accept body)
      (accepted_post-IsShort std datastore body (get_response_type_from_headers accept)) e

short_header : (n : ℕ) → n < 12 → leb header_bytes n ≡ false
short_header n h = ground arith

parse_raw_http_short :
    (std : Outside) (bytes : Bytes) → length bytes < 12 → parse_raw_http std bytes ≡ panic
unfolding parse_raw_http slice
parse_raw_http_short std bytes h = rw (short_header (length bytes) h) refl

get_query_short :
    (std : Outside) (db : Tables) (response_type : ResponseType) (query : GetQueryString)
    (dns bytes : Bytes)
    → std.decode dns ≡ some bytes
    → length bytes < 12
    → get_query std db response_type query (some dns) ≡ panic
unfolding get_query decoded or_500
get_query_short std db response_type query dns bytes decodes h =
    rw (decodes, parse_raw_http_short std bytes h) refl

-- A request whose `dns` parameter decodes to less than the twelve bytes of a header makes the handler panic,
-- where it has an accepted type of response.
pub handle_get_short :
    (std : Outside) (db : Tables) (accept : Option Bytes) (query : GetQueryString)
    (dns bytes : Bytes)
    → get_response_type_from_headers accept ≢ ResponseType.invalid
    → query.dns ≡ some dns
    → std.decode dns ≡ some bytes
    → length bytes < 12
    → handle_get std db accept query ≡ panic
unfolding handle_get accepted_get
handle_get_short std db accept query dns bytes valid asked decodes h =
    accepted (get_response_type_from_headers accept) valid
  where
    raw : (response_type : ResponseType) → get_query std db response_type query query.dns ≡ panic
    raw response_type =
        ap (get_query std db response_type query) asked
        ∙ get_query_short std db response_type query dns bytes decodes h

    accepted : (t : ResponseType) → t ≢ ResponseType.invalid → accepted_get std db query t ≡ panic
    accepted ResponseType.invalid ne = absurd (ne refl)
    accepted ResponseType.json ne = raw ResponseType.json
    accepted ResponseType.raw ne = raw ResponseType.raw
