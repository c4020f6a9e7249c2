-- ===== src/Crest/Resp/Headers.antt =====
-- The headers of a response.
use optics_light.Htable.{Htable, HtableRet, same_key, probe_window, htable_resize, htable_get}
use optics_light.Htable.Placed.{find}
use optics_light.Htable.Rehash.{IsValid, view, htable_resize-Resized}
use optics_light.Htable.Ops.{Does, htable_get-Does}
use optics_light.Htable.Put.{htable_put-Does}
use optics_light.Htable.Del.{htable_xchg-Does}
use optics_light.Htable.Total.{htable_get_total, htable_put_total, htable_xchg_total}
use optics_light.Crest.Resp.{CrestResp, crest_resp_add_header}
use optics_light.Prelude.{
  ℕ, suc, ◌<◌, ◌≡◌, refl, ◌≢◌, ap, sym, ◌∙◌, Option, none, some, List, true, false, ◌==◌,
  if◌then◌else◌, arith, Bool-cases, Option-cases, inl, inr,
}

-- The value of a header.
unfoldable pub header : CrestResp → List ℕ → Option (List ℕ)
header resp key = elim (view resp.headers key) [ none ↦ none | some a ↦ some (resp.values a) ]

get-len :
    (fuel : ℕ) (ht : Htable) (key : List ℕ) (ret : HtableRet) (out : Htable)
    → IsValid ht
    → htable_get fuel ht key ≡ some (ret, out)
    → out.len ≡ ht.len
unfolding htable_get
get-len fuel ht key ret out v run = elim (Option-cases (htable_resize fuel ht probe_window)) [
  | inl e ↦ absurd (ground arith)
  | inr (ht', e) ↦
      let r = htable_resize-Resized fuel ht probe_window ht' v e in
      elim (Option-cases (find ht'.table ht'.cap key)) [
        | inl absent ↦ let same : ht' ≡ out = ground arith in ap (λ t. t.len) (sym same) ∙ r.len
        | inr (j, there) ↦ let same : ht' ≡ out = ground arith in ap (λ t. t.len) (sym same) ∙ r.len
      ]
]

-- The response `out` that a header makes of `resp`.
pub record HasHeader (resp : CrestResp) (key value : List ℕ) (out : CrestResp) : Type 0 where
  pub valid : IsValid out.headers
  pub body : out.body ≡ resp.body
  pub sent : out.sent ≡ resp.sent
  pub reads : (q : List ℕ) → header out q ≡ (if same_key key q then some value else header resp q)

module _ (resp : CrestResp) (key value : List ℕ) (address : ℕ) where
  abbrev values_after : ℕ → List ℕ
  values_after a = if a == address then value else resp.values a

  -- Through the address, which no header has before.
  through :
      (out : Htable) (q : List ℕ)
      → view resp.headers q ≢ some address
      → view out q ≡ (if same_key key q then some address else view resp.headers q)
      → header (record resp { headers = out; values = values_after }) q
        ≡ (if same_key key q then some value else header resp q)
  unfolding header
  through out q fresh reads = elim (Bool-cases (same_key key q)) [
    | inl e ↦
        let here : (address == address) ≡ true = ground arith in
        let at : view out q ≡ some address = ground (arith, reads) in rw (at, e, here, header) refl
    | inr e ↦ elim (Option-cases (view resp.headers q)) [
      | inl absent ↦
          let at : view out q ≡ none = ground (arith, reads) in rw (at, e, absent, header) refl
      | inr (a, there) ↦
          let at : view out q ≡ some a = ground (arith, reads) in
          let other : (a == address) ≡ false = ground (arith, fresh) in
          rw (at, e, there, other, header) refl
    ]
  ]

  Does-HasHeader :
      (ret answer : HtableRet) (out : Htable) (m : List ℕ → Option ℕ)
      → ((q : List ℕ) → view resp.headers q ≢ some address)
      → Does ret out answer m
      → ((q : List ℕ) → m q ≡ (if same_key key q then some address else view resp.headers q))
      → HasHeader resp key value (record resp { headers = out; values = values_after })
  Does-HasHeader ret answer out m fresh d same = record {
    valid = d.valid;
    body = refl;
    sent = refl;
    reads = λ q. through out q (fresh q) (d.reads q ∙ same q);
  }

  -- On a response with a valid table of fewer than eight headers, and with an address that no header
  -- has, `crest_resp_add_header` returns; the header then has the value, whether it was there or not,
  -- the other headers keep theirs, the table stays valid, and the body and what
  -- is sent stay as they are.
  pub crest_resp_add_header_lem :
      (fuel : ℕ)
      → IsValid resp.headers
      → resp.headers.len < 8
      → ((q : List ℕ) → view resp.headers q ≢ some address)
      → (out : CrestResp) × (crest_resp_add_header (suc fuel) address resp key value ≡ some out)
        × HasHeader resp key value out
  unfolding crest_resp_add_header
  crest_resp_add_header_lem fuel v few fresh =
      let (ret, h, got) = htable_get_total fuel resp.headers key v in
      let g = htable_get-Does (suc fuel) resp.headers key ret h v got in
      let len = get-len (suc fuel) resp.headers key ret h v got in
      elim (Option-cases (view resp.headers key)) [
        | inl absent ↦
            let (ret', out, put) =
              htable_put_total fuel h key address g.valid (omega (arith, len)) in
            let d = htable_put-Does (suc fuel) h key address ret' out g.valid put in
            let no_key : ret.ok ≡ false = ground (arith, g.answers) in
            (
              record resp { headers = out; values = values_after },
              rw (got, no_key, put, crest_resp_add_header) refl,
              Does-HasHeader ret' _ out _ fresh d (λ q. ground (arith, g.reads q, g.reads key)),
            )
        | inr (old, there) ↦
            let (ret', out, xchg) = htable_xchg_total fuel h key address g.valid in
            let d = htable_xchg-Does (suc fuel) h key address ret' out g.valid xchg in
            let has_key : ret.ok ≡ true = ground (arith, g.answers) in
            (
              record resp { headers = out; values = values_after },
              rw (got, has_key, xchg, crest_resp_add_header) refl,
              Does-HasHeader ret' _ out _ fresh d (λ q. ground (arith, g.reads q, g.reads key)),
            )
      ]
