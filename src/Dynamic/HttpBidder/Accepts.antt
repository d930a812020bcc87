-- ===== src/Dynamic/HttpBidder/Accepts.antt =====
-- internal/ads/http_bidder.go, `Fetch`: which answers of a DSP are taken.
use adserver.Types.Bid.{Bid}
use adserver.Common.Int.{ℤ, pos, ◌≤ℤ◌, ◌<ℤ◌, ltb_ℤ, leb_ℤ}
use adserver.Common.Text.{Str, bytes, is_empty}
use adserver.Dynamic.Sanitize.{DspRequest}
use adserver.Common.{
  refl, true, false, inl, inr, some, zero, suc, [], ◌∷◌, ◌≡◌, ◌+◌, ◌≤◌, ◌<◌, if◌then◌else◌, Option,
  ℕ, List, length, arith, none, Bool-cases, lt→ltb, ltb, ltb→lt, ◌∙◌, ◌||◌, ◌⊎◌, ap, sym, ◌↔◌,
  Option-cases,
}
use adserver.Dynamic.HttpBidder.{
  responded, not_sent, no_response, bids_of, read_response, take, read_limited, Decoded,
  ResponseBody, DspPost, Response, max_dsp_response_bytes, HttpBidderAdapter, unreadable, too_large,
  post_of, check_response, fetch_bids, authorization_header,
}

-- The whole body is read, is of at most 64 KiB, and is the bids with nothing behind them.
abbrev pub IsTaken : (Str → Decoded) → ℤ → ResponseBody → List Bid → Type 0
IsTaken decode status body bids =
    (pos 200 ≤ℤ status)
    × (status <ℤ pos 300)
    × (length body.content ≤ max_dsp_response_bytes)
    × (body.is_broken ≡ false)
    × (decode body.content ≡ record { bids = some bids; at_end = true })

-- The post of a payload: to the adapter's endpoint, of and for JSON, with its authorization where that is
-- not empty.
abbrev pub posted : HttpBidderAdapter → Str → DspPost
posted a payload = record {
  url = a.endpoint;
  content_type = bytes "application/json";
  accept = bytes "application/json";
  authorization = if is_empty a.authorization then none else some a.authorization;
  payload = payload;
}

post_of-eq-posted : (a : HttpBidderAdapter) (payload : Str) → post_of a payload ≡ posted a payload
unfolding post_of authorization_header
post_of-eq-posted a payload = refl

abbrev pub Accepted :
    (DspRequest → Option Str)
    → (Str → Decoded)
    → (DspPost → Response)
    → HttpBidderAdapter
    → DspRequest
    → List Bid
    → Type 0
Accepted marshal decode send a request bids =
    (payload : Str) × (status : ℤ) × (body : ResponseBody) × (marshal request ≡ some payload)
    × (send (posted a payload) ≡ responded status body)
    × IsTaken decode status body bids

length-take : (n : ℕ) (s : Str) → n ≤ length s → length (take n s) ≡ n
unfolding take
length-take zero s h = refl
length-take (suc n) [] h = absurd (omega arith)
length-take (suc n) (c ∷ s) h = omega (arith, length-take n s)

read_limited-long :
    (limit : ℕ) (body : ResponseBody)
    → limit ≤ length body.content
    → read_limited limit body ≡ some (take limit body.content)
unfolding read_limited
read_limited-long limit body h = ground arith

read_limited-short :
    (limit : ℕ) (body : ResponseBody)
    → length body.content < limit
    → read_limited limit body ≡ (if body.is_broken then none else some body.content)
unfolding read_limited
read_limited-short limit body h = ground arith

read_response-large :
    (decode : Str → Decoded) (payload : Str)
    → max_dsp_response_bytes < length payload
    → read_response decode (some payload) ≡ inr too_large
unfolding read_response
read_response-large decode payload h = rw (lt→ltb max_dsp_response_bytes (length payload) h) refl

read_response-small :
    (decode : Str → Decoded) (payload : Str)
    → length payload ≤ max_dsp_response_bytes
    → read_response decode (some payload) ≡ bids_of (decode payload)
unfolding read_response
read_response-small decode payload h =
    elim (Bool-cases (ltb max_dsp_response_bytes (length payload))) [
      | inl t ↦ absurd (omega (arith, ltb→lt max_dsp_response_bytes (length payload) t))
      | inr t ↦ rw t refl
    ]

ltb-false→le : (a b : ℕ) → ltb a b ≡ false → b ≤ a
ltb-false→le a b h = ground arith

read_response-whole :
    (decode : Str → Decoded) (body : ResponseBody)
    → length body.content ≤ max_dsp_response_bytes
    → read_response decode (if body.is_broken then none else some body.content)
      ≡ (if body.is_broken then inr unreadable else bids_of (decode body.content))
unfolding read_response
read_response-whole decode body h = elim (Bool-cases body.is_broken) [
  | inl t ↦ rw t refl
  | inr t ↦ rw t (read_response-small decode body.content h)
]

-- A body that reaches the limit is one that is too large, and any other is read whole.
read_response-limited :
    (decode : Str → Decoded) (body : ResponseBody)
    → ((length body.content ≤ max_dsp_response_bytes)
        × (read_response decode (read_limited (max_dsp_response_bytes + 1) body)
            ≡ (if body.is_broken then inr unreadable else bids_of (decode body.content))))
      ⊎ ((max_dsp_response_bytes < length body.content)
          × (read_response decode (read_limited (max_dsp_response_bytes + 1) body) ≡ inr too_large))
read_response-limited decode body =
    elim (Bool-cases (ltb max_dsp_response_bytes (length body.content))) [
      | inl t ↦
          let h : max_dsp_response_bytes + 1 ≤ length body.content =
            omega (arith, ltb→lt max_dsp_response_bytes (length body.content) t) in
          inr (
            omega arith,
            ap (read_response decode) (read_limited-long (max_dsp_response_bytes + 1) body h)
                ∙ read_response-large decode (take (max_dsp_response_bytes + 1) body.content)
                    (omega (arith, length-take (max_dsp_response_bytes + 1) body.content h)),
          )
      | inr t ↦
          let h : length body.content ≤ max_dsp_response_bytes = ltb-false→le _ _ t in
          inl (
            h,
            ap (read_response decode)
                  (read_limited-short (max_dsp_response_bytes + 1) body (omega arith))
                ∙ read_response-whole decode body h,
          )
    ]

bids_of-eq-inl :
    (d : Decoded) (bids : List Bid)
    → bids_of d ≡ inl bids
    → d ≡ record { bids = some bids; at_end = true }
unfolding bids_of
bids_of-eq-inl d bids h = ground arith

check_response-eq-inl :
    (decode : Str → Decoded) (status : ℤ) (body : ResponseBody) (bids : List Bid)
    → check_response decode (responded status body) ≡ inl bids
    → IsTaken decode status body bids
unfolding check_response
check_response-eq-inl decode status body bids h =
    elim (Bool-cases (ltb_ℤ status (pos 200) || leb_ℤ (pos 300) status)) [
      | inl t ↦ let k = rw t at h in absurd (cc)
      | inr t ↦
          let k = rw t at h in
          elim (read_response-limited decode body) [
            | inr e ↦ let m = sym e.1 ∙ k in absurd (cc)
            | inl (short, e) ↦ elim (Bool-cases body.is_broken) [
              | inl b ↦ let m = rw b at (sym e ∙ k) in absurd (cc)
              | inr b ↦
                  let m = rw b at (sym e ∙ k) in
                  (
                    ground arith,
                    ground arith,
                    short,
                    b,
                    bids_of-eq-inl (decode body.content) bids m,
                  )
            ]
          ]
    ]

check_response_taken :
    (decode : Str → Decoded) (status : ℤ) (body : ResponseBody) (bids : List Bid)
    → IsTaken decode status body bids
    → check_response decode (responded status body) ≡ inl bids
unfolding check_response bids_of
check_response_taken decode status body bids (low, high, short, whole, e) =
    let t : (ltb_ℤ status (pos 200) || leb_ℤ (pos 300) status) ≡ false = ground arith in
    elim (read_response-limited decode body) [
      | inl (h, m) ↦ rw t (m ∙ rw (whole, e) refl)
      | inr m ↦ absurd (omega (arith, m.0))
    ]

answered_with :
    (decode : Str → Decoded) (bids : List Bid) (r : Response)
    → check_response decode r ≡ inl bids
    → (status : ℤ) × (body : ResponseBody) × (r ≡ responded status body)
      × IsTaken decode status body bids
unfolding check_response
answered_with decode bids not_sent h = absurd (cc)
answered_with decode bids no_response h = absurd (cc)
answered_with decode bids (responded status body) h =
    (status, body, refl, check_response-eq-inl decode status body bids h)

-- A fetch returns bids exactly if the request is encoded, is posted as JSON to the adapter's endpoint with
-- its authorization, if that is not empty, and is answered with a status of 200 to 299 and a body of at most 64 KiB that is read
-- to its end and is these bids with nothing behind them: the limited read decides as a read of the
-- whole body would.
pub fetch_bids-Accepted :
    (marshal : DspRequest → Option Str) (decode : Str → Decoded) (send : DspPost → Response)
    → (a : HttpBidderAdapter) (request : DspRequest) (bids : List Bid)
    → (fetch_bids marshal decode send a request ≡ inl bids)
      ↔ Accepted marshal decode send a request bids
unfolding fetch_bids
fetch_bids-Accepted marshal decode send a request bids = (
  λ h. elim (Option-cases (marshal request)) [
    | inl e ↦ let k = rw (e, fetch_bids) at h in absurd (cc)
    | inr (payload, e) ↦
        let k = rw (e, fetch_bids) at h in
        let (status, body, r, taken) = answered_with decode bids (send (post_of a payload)) k in
        (payload, status, body, e, ap send (sym (post_of-eq-posted a payload)) ∙ r, taken)
  ],
  λ (payload, status, body, e, r, taken).
      rw (e, fetch_bids, post_of-eq-posted a payload)
        (rw r (check_response_taken decode status body bids taken)),
)
