-- ===== src/Crest/Service/Status.antt =====
-- What the service answers to a request.
use optics_light.Buffer.{Buffer, Heap, empty_buffer}
use optics_light.Buffer.Content.{Holds, buffer_write-Holds}
use optics_light.Crest.Req.{
  CrestReq, CrestMethod, crest_get, crest_put, crest_post, crest_delete, crest_unsupported,
  crest_req_get_method, crest_req_get_path,
}
use optics_light.Crest.Resp.{
  CrestResp, Answer, Mhd, header_list, all_added, crest_resp_send, crest_resp_send_error,
  crest_resp_write,
}
use optics_light.Crest.Service.{Exchange, crest_err, crest_conflict, send, send_error}
use optics_light.Prelude.{
  ℕ, ◌≡◌, refl, ap, ◌∙◌, Option, some, List, [], ◌∷◌, Bool, true, false, ◌&&◌, ◌==◌, if◌then◌else◌,
  not, Option-cases, inl, inr, take,
}

-- What the tests of a resource say.
pub record Verdicts : Type 0 where
  pub authorized : Bool
  pub forbidden : Bool
  pub accepts : Bool
  pub exists : Bool

unfoldable pub first_code : List (Bool × ℕ) → ℕ → ℕ
first_code [] code = code
first_code ((fails, refusal) ∷ more) code = if fails then refusal else first_code more code

unfoldable pub needs_it : CrestMethod → Bool
needs_it crest_get = true
needs_it crest_delete = true
needs_it _ = false

unfoldable pub creates : CrestMethod → Bool
creates crest_put = true
creates _ = false

-- The refusals in the order in which they count; `result` is what the callback returns.
unfoldable pub refusals : Verdicts → CrestMethod → ℕ → List (Bool × ℕ)
refusals v method result =
    (not v.authorized, 401)
    ∷ (not v.forbidden, 403)
    ∷ (not v.accepts, 406)
    ∷ (needs_it method && not v.exists, 404)
    ∷ (creates method && v.exists, 409)
    ∷ (result == crest_err, 500)
    ∷ (result == crest_conflict, 409)
    ∷ []

unfoldable pub success : CrestMethod → Bool → ℕ
success crest_get exists = 200
success crest_put exists = 201
success crest_post exists = if exists then 204 else 201
success crest_delete exists = 204
success crest_unsupported exists = 501

-- Every call of libmicrohttpd succeeds.
pub record Accepts (mhd : Mhd) : Type 0 where
  pub creates : (content : List ℕ) → mhd.create_response content ≡ true
  pub adds : (key value : List ℕ) → mhd.add_response_header key value ≡ true
  pub queues : (code : ℕ) → mhd.queue_response code ≡ true

pub record IsResp (resp : CrestResp) : Type 0 where
  pub content : List ℕ
  pub holds : Holds content resp.body

all_added-true : (mhd : Mhd) (hs : List (List ℕ × List ℕ)) → Accepts mhd → all_added mhd hs ≡ true
unfolding all_added
all_added-true mhd [] a = refl
all_added-true mhd ((key, value) ∷ hs) a = rw (a.adds key value, all_added-true mhd hs a) refl

pub same_method :
    (req : CrestReq) → crest_req_get_method (crest_req_get_path req).1 ≡ crest_req_get_method req
unfolding crest_req_get_method crest_req_get_path
same_method req = elim (Option-cases req.path) [ inl e ↦ rw e refl | inr (path, e) ↦ rw e refl ]

-- What is queued.
abbrev answer_of : CrestResp → ℕ → Answer
answer_of resp code = record {
  code = code;
  headers = header_list resp.headers.table resp.values;
  content = take resp.body.len resp.body.cells;
}

abbrev queued : CrestResp → ℕ → CrestResp
queued resp code = record resp { body = empty_buffer; sent = answer_of resp code ∷ resp.sent }

crest_resp_send_ok :
    (mhd : Mhd) (a : Accepts mhd) (resp : CrestResp) (code : ℕ)
    → crest_resp_send mhd resp code ≡ some (queued resp code)
unfolding crest_resp_send
crest_resp_send_ok mhd a resp code =
    rw
      (
        a.creates (take resp.body.len resp.body.cells),
        all_added-true mhd (header_list resp.headers.table resp.values) a,
        a.queues code,
      )
      refl

send_error_ok :
    (heap : Heap) (mhd : Mhd) (a : Accepts mhd) (resp : CrestResp) (code : ℕ) (reason : List ℕ)
    → IsResp resp
    → (body : Buffer) × (crest_resp_send_error heap mhd resp code reason
        ≡ some (queued (record resp { body = body }) code))
unfolding crest_resp_send_error crest_resp_write
send_error_ok heap mhd a resp code reason is =
    let (body, wrote, _) =
      buffer_write-Holds heap is.content (take 1024 reason) resp.body is.holds in
    (
      body,
      rw (wrote, crest_resp_write, crest_resp_send_error)
          (crest_resp_send_ok mhd a (record resp { body = body }) code),
    )

module _ {W : Type 0} where
  -- One more answer than in `x`, with that code, and no abort.
  unfoldable pub Sends : Exchange W → ℕ → Option (Exchange W) → Type 0
  Sends x code o =
      (out : Exchange W) × (answer : Answer) × (o ≡ some out)
      × (answer.code ≡ code)
      × (out.resp.sent ≡ answer ∷ x.resp.sent)

  -- So, and all else but the response is as in `x`.
  unfoldable pub Refused : Exchange W → ℕ → Option (Exchange W) → Type 0
  Refused x code o =
      (resp : CrestResp) × (answer : Answer) × (o ≡ some (record x { resp = resp }))
      × (answer.code ≡ code)
      × (resp.sent ≡ answer ∷ x.resp.sent)

  -- After a step that sends nothing.
  pub Sends-after :
      (x y : Exchange W) (code : ℕ) (o : Option (Exchange W))
      → y.resp.sent ≡ x.resp.sent
      → Sends y code o
      → Sends x code o
  unfolding Sends
  Sends-after x y code o h (out, answer, run, is, sent) =
      (out, answer, run, is, sent ∙ ap (λ l. answer ∷ l) h)

  module _ (heap : Heap) (mhd : Mhd) (a : Accepts mhd) where
    pub send-Sends : (x : Exchange W) (code : ℕ) → Sends x code (send heap mhd x code)
    unfolding Sends send
    send-Sends x code = (
      record x { resp = queued x.resp code },
      answer_of x.resp code,
      rw (crest_resp_send_ok mhd a x.resp code, send) refl,
      refl,
      refl,
    )

    pub send_error-Sends :
        (x : Exchange W) (code : ℕ) (reason : List ℕ)
        → IsResp x.resp
        → Sends x code (send_error heap mhd x code reason)
    unfolding Sends send_error
    send_error-Sends x code reason is =
        let (body, run) = send_error_ok heap mhd a x.resp code reason is in
        let resp : CrestResp = record x.resp { body = body } in
        (
          record x { resp = queued resp code },
          answer_of resp code,
          rw (run, send_error) refl,
          refl,
          refl,
        )

    pub send_error-Refused :
        (x : Exchange W) (code : ℕ) (reason : List ℕ)
        → IsResp x.resp
        → Refused x code (send_error heap mhd x code reason)
    unfolding Refused send_error
    send_error-Refused x code reason is =
        let (body, run) = send_error_ok heap mhd a x.resp code reason is in
        let resp : CrestResp = record x.resp { body = body } in
        (queued resp code, answer_of resp code, rw (run, send_error) refl, refl, refl)
