-- ===== src/Doh/Responses.antt =====
-- The JSON responses of src/web/doh/mod.rs.
use goatns.Prelude.{
  ℕ, ◌%◌, ◌≤◌, true, Option, none, some, ◌≡◌, refl, sym, ap, subst, ◌∙◌, List, [], ◌∷◌, map, ltb,
  ◌==◌, if◌then◌else◌, All, Result, ok, err, panic, stuck, bind-eq-ok, ok-injective, Bytes,
  equal_iff, String, arith, if_err-eq-ok,
}
use goatns.Enums.{RecordType, to_u16, from_u16, from_str}
use goatns.Enums.Laws.{from_u16-to_u16, from_str-to_str, to_u16_bound}
use goatns.Datastore.{ViewRow, Tables, records_merged, select}
use goatns.Database.Rows.{select_passes, All-zip, All-implies, map-All}
use goatns.Database.Zones.{record_from_row, keep_record, records_from_rows}
use goatns.Reply.{reply_as_bytes}
use goatns.Zone.{FileZoneRecord}
use goatns.Doh.{
  Outside, ResponseType, JsonRecord, JsonResponse, Response, GetQueryString, parse_raw_http,
  get_response_type_from_headers, view_row, is_named, get_all_fzr_by_name, min_record_ttl,
  json_record, json_response, raw_reply, or_500, respond, look_up_and_respond, decoded, get_query,
  accepted_get, handle_get, name_or_empty, type_or_a,
}

-- The response, where there is one, has the property.
abbrev pub Holds : (Response → Type 0) → Result Response → Type 0
Holds P (ok response) = P response
Holds P _ = Unit

pub or_500-Holds :
    {A : Type 0} (P : Response → Type 0) (r : Result A) (next : A → Result Response)
    → P Response.server_error
    → ((x : A) → r ≡ ok x → Holds P (next x))
    → Holds P (or_500 r next)
unfolding or_500
or_500-Holds P (ok x) next fails h = h x refl
or_500-Holds P (err e) next fails h = fails
or_500-Holds P panic next fails h = tt
or_500-Holds P stuck next fails h = tt

-- A record of the name and the type's number.
abbrev IsAsked : Bytes → ℕ → FileZoneRecord → Type 0
IsAsked name n r = (r.name ≡ name) × (to_u16 (from_str r.rrtype) ≡ n)

row-IsAsked :
    (name : Bytes) (t : RecordType) (row : ViewRow) {r : FileZoneRecord}
    → is_named name (to_u16 t) row ≡ true
    → record_from_row (view_row row) ≡ ok r
    → IsAsked name (to_u16 t) r
unfolding is_named record_from_row view_row
row-IsAsked name t row {r} named h =
    let fit : (row.name ≡ name) × (row.rrtype ≡ to_u16 t) =
      ground (arith, equal_iff row.name name) in
    let small : row.rrtype % 0x10000 ≡ to_u16 t = omega (arith, to_u16_bound t, fit.1) in
    let (_, made) =
      if_err-eq-ok (to_u16 (from_u16 (row.rrtype % 0x10000)) == to_u16 RecordType.any) _ h in
    (
      ap (λ s. s.name) (sym (ok-injective made)) ∙ fit.0,
      ap (λ s. to_u16 (from_str s.rrtype)) (sym (ok-injective made))
          ∙ ap to_u16 (from_str-to_str (from_u16 (row.rrtype % 0x10000)))
          ∙ ap (λ n. to_u16 (from_u16 n)) small
          ∙ ap to_u16 (from_u16-to_u16 t),
    )

kept_asked :
    (P : FileZoneRecord → Type 0) (r : Result FileZoneRecord) (rest : Result (List FileZoneRecord))
    {rs : List FileZoneRecord}
    → ((x : FileZoneRecord) → r ≡ ok x → P x)
    → ((xs : List FileZoneRecord) → rest ≡ ok xs → All P xs)
    → keep_record r rest ≡ ok rs
    → All P rs
unfolding keep_record
kept_asked P (ok x) rest {rs} h k e =
    let (xs, found, e') = bind-eq-ok rest _ e in
    subst (All P) (ok-injective e') (h x refl, k xs found)
kept_asked P (err error) rest {rs} h k e = k rs e
kept_asked P panic rest h k e = cc
kept_asked P stuck rest h k e = cc

rows-IsAsked :
    (name : Bytes) (t : RecordType) (rows : List ViewRow) {rs : List FileZoneRecord}
    → All (λ row. is_named name (to_u16 t) row ≡ true) rows
    → records_from_rows (map view_row rows) ≡ ok rs
    → All (IsAsked name (to_u16 t)) rs
unfolding records_from_rows
rows-IsAsked name t [] h e = subst (All (IsAsked name (to_u16 t))) (ok-injective e) tt
rows-IsAsked name t (row ∷ rows) (h, hs) e =
    kept_asked (IsAsked name (to_u16 t)) (record_from_row (view_row row))
      (records_from_rows (map view_row rows)) (λ r made. row-IsAsked name t row h made)
      (λ rs made. rows-IsAsked name t rows hs made) e

min_record_ttl_least : (rs : List FileZoneRecord) → All (λ r. min_record_ttl rs ≤ r.ttl) rs
unfolding min_record_ttl
min_record_ttl_least [] = tt
min_record_ttl_least (r ∷ []) = (omega arith, tt)
min_record_ttl_least (r ∷ s ∷ rs) =
    let rest : ℕ = min_record_ttl (s ∷ rs) in
    let least : ℕ = if ltb rest r.ttl then rest else r.ttl in
    let below : (least ≤ rest) × (least ≤ r.ttl) = ground arith in
    (below.1, All-implies (s ∷ rs) (λ x le. le_trans below.0 le) (min_record_ttl_least (s ∷ rs)))
  where
    le_trans : {a b c : ℕ} → a ≤ b → b ≤ c → a ≤ c
    le_trans h k = omega arith

-- The answer agrees with the question and outlives the response's max-age.
abbrev pub AnswersQuestion : ℕ → JsonResponse → JsonRecord → Type 0
AnswersQuestion max_age response answer =
    (answer.name ≡ response.question.name)
    × (answer.qtype ≡ response.question.qtype)
    × (max_age ≤ answer.ttl)

-- Every answer of the JSON response is an answer to its question.
abbrev pub IsAnswered : Response → Type 0
IsAnswered (Response.json_sent max_age response) =
    All (AnswersQuestion max_age response) response.answer
IsAnswered _ = Unit

respond-IsAnswered :
    (std : Outside) (response_type : ResponseType) (name : Bytes) (t : RecordType) (id : ℕ)
    (rs : List FileZoneRecord)
    → All (IsAsked name (to_u16 t)) rs
    → Holds IsAnswered (respond std response_type name t id rs)
unfolding respond json_response json_record
respond-IsAnswered std ResponseType.invalid name t id rs h = tt
respond-IsAnswered std ResponseType.json name t id rs h =
    map-All (AnswersQuestion (min_record_ttl rs) (json_response name t rs)) json_record rs
      (All-zip rs (λ r asked le. (asked.0, asked.1, le)) h (min_record_ttl_least rs))
respond-IsAnswered std ResponseType.raw name t id rs h =
    or_500-Holds IsAnswered
      (reply_as_bytes std.codec std.platform (raw_reply std.readers name t id rs)) _ tt
      (λ value _. tt)

look_up-IsAnswered :
    (std : Outside) (db : Tables) (response_type : ResponseType) (name : Bytes) (rrtype : String)
    (id : ℕ)
    → Holds IsAnswered (look_up_and_respond std db response_type name rrtype id)
unfolding look_up_and_respond get_all_fzr_by_name
look_up-IsAnswered std db response_type name rrtype id =
    let t : RecordType = from_str rrtype in
    or_500-Holds IsAnswered (get_all_fzr_by_name db name (to_u16 t)) _ tt (λ rs found.
      respond-IsAnswered std response_type name t id rs (
        rows-IsAsked name t (select (is_named name (to_u16 t)) (records_merged db.zones db.records))
          (select_passes (is_named name (to_u16 t)) (records_merged db.zones db.records)) found))

get_query-IsAnswered :
    (std : Outside) (db : Tables) (response_type : ResponseType) (query : GetQueryString)
    (dns : Option Bytes)
    → Holds IsAnswered (get_query std db response_type query dns)
unfolding get_query
get_query-IsAnswered std db response_type query none =
    look_up-IsAnswered std db response_type (name_or_empty query.name) (type_or_a query.rrtype) 0
get_query-IsAnswered std db response_type query (some dns) =
    or_500-Holds IsAnswered (decoded (std.decode dns)) _ tt (λ bytes _.
      or_500-Holds IsAnswered (parse_raw_http std bytes) _ tt
        (λ raw _. look_up-IsAnswered std db response_type raw.name raw.rrtype raw.id))

accepted_get-IsAnswered :
    (std : Outside) (db : Tables) (query : GetQueryString) (response_type : ResponseType)
    → Holds IsAnswered (accepted_get std db query response_type)
unfolding accepted_get
accepted_get-IsAnswered std db query ResponseType.invalid = tt
accepted_get-IsAnswered std db query ResponseType.json =
    get_query-IsAnswered std db ResponseType.json query query.dns
accepted_get-IsAnswered std db query ResponseType.raw =
    get_query-IsAnswered std db ResponseType.raw query query.dns

pub Holds-response :
    (P : Response → Type 0) (r : Result Response) {x : Response} → Holds P r → r ≡ ok x → P x
Holds-response P r h e = subst (Holds P) e h

-- A JSON response over HTTPS answers its question: for every GET request and whatever the tables hold,
-- each record of the response has the name and the type of the response's question, and a time to live that
-- is not below the max-age of the response.
pub handle_get-IsAnswered :
    (std : Outside) (db : Tables) (accept : Option Bytes) (query : GetQueryString) {max_age : ℕ}
    {response : JsonResponse}
    → handle_get std db accept query ≡ ok (Response.json_sent max_age response)
    → All (AnswersQuestion max_age response) response.answer
unfolding handle_get
handle_get-IsAnswered std db accept query e =
    Holds-response IsAnswered (handle_get std db accept query)
      (accepted_get-IsAnswered std db query (get_response_type_from_headers accept)) e
