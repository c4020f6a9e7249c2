-- ===== src/Crest/Service/Process.antt =====
-- One round of the service, from the request to its answer.
use mathlib.Core.Path.{subst}
use optics_light.Buffer.{Heap}
use optics_light.Crest.Path.Items.{path_rest}
use optics_light.Crest.Router.{router_route}
use optics_light.Crest.Req.{
  CrestMethod, crest_get, crest_put, crest_post, crest_delete, crest_unsupported,
  crest_req_get_method, crest_req_get_path,
}
use optics_light.Crest.Resp.{Mhd}
use optics_light.Crest.Service.{
  Exchange, CrestTestCb, CrestResourceCb, CrestRes, Crest, crest_err, crest_conflict, send_error,
  run_test, callback, crest_call_cb, call_existing, call_missing, guarded, crest_process,
}
use optics_light.Crest.Service.Status.{
  Verdicts, first_code, needs_it, creates, refusals, success, Accepts, IsResp, Sends, Sends-after,
  send-Sends, send_error-Sends, Refused, send_error-Refused, same_method,
}
use optics_light.Prelude.{
  ℕ, zero, suc, ◌≤◌, ◌≡◌, refl, ap, sym, ◌∙◌, Option, none, some, List, [], ◌∷◌, Bool, true, false,
  ◌&&◌, ◌==◌, if◌then◌else◌, not, arith,
}

-- The request as the callbacks get it: its path is there.
abbrev pub with_path : {W : Type 0} → Exchange W → Exchange W
with_path x = record x { req = (crest_req_get_path x.req).1 }

module _ {C W : Type 0} where
  -- A callback that returns `result`, and that sends nothing itself.
  pub record Handles (cb : CrestResourceCb C W) (context : C) (result : ℕ) : Type 0 where
    pub returns : (x : Exchange W) → (cb context x).0 ≡ result
    pub keeps : (x : Exchange W) → IsResp x.resp → IsResp (cb context x).1.resp
    pub silent : (x : Exchange W) → (cb context x).1.resp.sent ≡ x.resp.sent

  -- A test that says `answer`, whatever it changes.
  unfoldable pub Says : Option (CrestTestCb C W) → C → Bool → Type 0
  Says test context answer = (x : Exchange W) → (run_test test context x).0 ≡ answer

  run_test-resp :
      (test : Option (CrestTestCb C W)) (context : C) (x : Exchange W)
      → (run_test test context x).1.resp ≡ x.resp
  unfolding run_test
  run_test-resp none context x = refl
  run_test-resp (some test) context x = refl

  module _ (heap : Heap) (mhd : Mhd) (a : Accepts mhd) (res : CrestRes C W) where
    -- What is left to refuse once the callback runs.
    after_call : ℕ → List (Bool × ℕ)
    after_call result = (result == crest_err, 500) ∷ (result == crest_conflict, 409) ∷ []

    call_cb-Sends :
        (x : Exchange W) (cb : CrestResourceCb C W) (code result : ℕ)
        → Handles cb res.context result
        → IsResp x.resp
        → result ≤ 2
        → Sends x (first_code (after_call result) code) (crest_call_cb heap mhd x res cb code)
    unfolding crest_call_cb first_code after_call
    call_cb-Sends x cb code zero h is le =
        Sends-after x (cb res.context x).1 code _ (h.silent x)
          (rw (h.returns x) (send-Sends heap mhd a (cb res.context x).1 code))
    call_cb-Sends x cb code (suc zero) h is le =
        Sends-after x (cb res.context x).1 500 _ (h.silent x)
          (rw (h.returns x) (send_error-Sends heap mhd a (cb res.context x).1 500 _ (h.keeps x is)))
    call_cb-Sends x cb code (suc (suc zero)) h is le =
        Sends-after x (cb res.context x).1 409 _ (h.silent x)
          (rw (h.returns x) (send_error-Sends heap mhd a (cb res.context x).1 409 _ (h.keeps x is)))
    call_cb-Sends x cb code (suc (suc (suc n))) h is le = absurd (omega arith)

    -- What is left to refuse after the first three tests.
    late : Bool → CrestMethod → ℕ → List (Bool × ℕ)
    late exists method result =
        (needs_it method && not exists, 404) ∷ (creates method && exists, 409) ∷ after_call result

    called-Sends :
        (x : Exchange W) (cb : CrestResourceCb C W) (method : CrestMethod) (exists : Bool)
        (result : ℕ)
        → callback res method ≡ some cb
        → Handles cb res.context result
        → IsResp x.resp
        → result ≤ 2
        → Sends x (first_code (late exists method result) (success method exists)) (
            if exists
            then call_existing heap mhd x res cb method
            else call_missing heap mhd x res cb method)
    unfolding call_existing call_missing first_code late needs_it creates success callback
    called-Sends x cb crest_get true result e h is le = call_cb-Sends x cb 200 result h is le
    called-Sends x cb crest_get false result e h is le = send_error-Sends heap mhd a x 404 _ is
    called-Sends x cb crest_put true result e h is le = send_error-Sends heap mhd a x 409 _ is
    called-Sends x cb crest_put false result e h is le = call_cb-Sends x cb 201 result h is le
    called-Sends x cb crest_post true result e h is le = call_cb-Sends x cb 204 result h is le
    called-Sends x cb crest_post false result e h is le = call_cb-Sends x cb 201 result h is le
    called-Sends x cb crest_delete true result e h is le = call_cb-Sends x cb 204 result h is le
    called-Sends x cb crest_delete false result e h is le = send_error-Sends heap mhd a x 404 _ is
    called-Sends x cb crest_unsupported exists result e h is le = absurd (ground arith)

    guarded-Sends :
        (x : Exchange W) (cb : CrestResourceCb C W) (method : CrestMethod) (v : Verdicts)
        (result : ℕ)
        → callback res method ≡ some cb
        → Says res.authorized res.context v.authorized
        → Says res.forbidden res.context v.forbidden
        → Says res.accepts res.context v.accepts
        → Says res.exists res.context v.exists
        → Handles cb res.context result
        → IsResp x.resp
        → result ≤ 2
        → Sends x
            (first_code (refusals v method result) (success method v.exists))
            (guarded heap mhd x res cb method)
    unfolding guarded Says refusals first_code late after_call
    guarded-Sends x cb method v result e sa sf sc se h is le =
        rw (sa x, sf p.1, sc q.1, se r.1)
          (outcome v.authorized v.forbidden v.accepts (
            Sends-after x s.1 _ _ (ap (λ w. w.sent) s_resp)
              (called-Sends s.1 cb method v.exists result e h (subst IsResp (sym s_resp) is) le)))
      where
        p : Bool × Exchange W
        p = run_test res.authorized res.context x

        q : Bool × Exchange W
        q = run_test res.forbidden res.context p.1

        r : Bool × Exchange W
        r = run_test res.accepts res.context q.1

        s : Bool × Exchange W
        s = run_test res.exists res.context r.1

        p_resp : p.1.resp ≡ x.resp
        p_resp = run_test-resp res.authorized res.context x

        q_resp : q.1.resp ≡ x.resp
        q_resp = run_test-resp res.forbidden res.context p.1 ∙ p_resp

        r_resp : r.1.resp ≡ x.resp
        r_resp = run_test-resp res.accepts res.context q.1 ∙ q_resp

        s_resp : s.1.resp ≡ x.resp
        s_resp = run_test-resp res.exists res.context r.1 ∙ r_resp

        refused :
            (y : Exchange W) (code : ℕ) (reason : List ℕ)
            → y.resp ≡ x.resp
            → Sends x code (send_error heap mhd y code reason)
        refused y code reason same =
            Sends-after x y code _ (ap (λ w. w.sent) same)
              (send_error-Sends heap mhd a y code reason (subst IsResp (sym same) is))

        outcome :
            (va vf vc : Bool)
            → Sends x (first_code (late v.exists method result) (success method v.exists)) (
                if v.exists
                then call_existing heap mhd s.1 res cb method
                else call_missing heap mhd s.1 res cb method)
            → Sends x
                (first_code
                  ((not va, 401) ∷ (not vf, 403) ∷ (not vc, 406) ∷ late v.exists method result)
                  (success method v.exists))
                (if not va
                  then send_error heap mhd p.1 401 (
                      b'u' ∷ b'n' ∷ b'a' ∷ b'u' ∷ b't' ∷ b'h' ∷ b'o' ∷ b'r' ∷ b'i' ∷ b'z' ∷ b'e'
                      ∷ b'd' ∷ [])
                  else if not vf
                  then send_error heap mhd q.1 403
                      (b'f' ∷ b'o' ∷ b'r' ∷ b'b' ∷ b'i' ∷ b'd' ∷ b'd' ∷ b'e' ∷ b'n' ∷ [])
                  else if not vc
                  then send_error heap mhd r.1 406 (
                      b'n' ∷ b'o' ∷ b't' ∷ b' ' ∷ b'a' ∷ b'c' ∷ b'c' ∷ b'e' ∷ b'p' ∷ b't' ∷ b'a'
                      ∷ b'b' ∷ b'l' ∷ b'e' ∷ [])
                  else if v.exists
                  then call_existing heap mhd s.1 res cb method
                  else call_missing heap mhd s.1 res cb method)
        outcome false vf vc done = refused p.1 401 _ p_resp
        outcome true false vc done = refused q.1 403 _ q_resp
        outcome true true false done = refused r.1 406 _ r_resp
        outcome true true true done = done

  -- If the path of a request leads to a resource that has a callback for its method, if every call of
  -- libmicrohttpd succeeds, and if the callback returns a result that there is and sends nothing
  -- itself, then the service does not abort and sends one answer, whose code is the first refusal that
  -- holds (401, 403, 406, then 404 or 409 by whether the resource exists, then 500 or 409 by the
  -- result) and otherwise the success code of the method.
  pub crest_process-Sends :
      (heap : Heap) (mhd : Mhd) (crest : Crest C W) (x : Exchange W) (res : CrestRes C W)
      (cb : CrestResourceCb C W) (v : Verdicts) (result : ℕ)
      → Accepts mhd
      → IsResp x.resp
      → router_route (path_rest (crest_req_get_path x.req).0) crest.routes ≡ some res
      → callback res (crest_req_get_method x.req) ≡ some cb
      → Says res.authorized res.context v.authorized
      → Says res.forbidden res.context v.forbidden
      → Says res.accepts res.context v.accepts
      → Says res.exists res.context v.exists
      → Handles cb res.context result
      → result ≤ 2
      → let method = crest_req_get_method x.req in
        Sends x
          (first_code (refusals v method result) (success method v.exists))
          (crest_process heap mhd crest x)
  unfolding crest_process Sends
  crest_process-Sends heap mhd crest x res cb v result a is found has sa sf sc se h le =
      rw (found, same_method x.req, has, same_method x.req, crest_process)
        (guarded-Sends heap mhd a res (with_path x) cb (crest_req_get_method x.req) v result has sa
          sf sc se h is le)

  -- If every call of libmicrohttpd succeeds, then a request whose path leads nowhere is answered once,
  -- with 404, and one whose resource has no callback for the method once, with 501. Neither a test nor
  -- a callback of the resource runs: what they act on stays as it was, and the request only gets its
  -- path.
  pub crest_process-refuses :
      (heap : Heap) (mhd : Mhd) (crest : Crest C W) (x : Exchange W)
      → Accepts mhd
      → IsResp x.resp
      → let route = router_route (path_rest (crest_req_get_path x.req).0) crest.routes in
        (route ≡ none → Refused (with_path x) 404 (crest_process heap mhd crest x))
        × ((res : CrestRes C W)
            → route ≡ some res
            → callback res (crest_req_get_method x.req) ≡ none
            → Refused (with_path x) 501 (crest_process heap mhd crest x))
  unfolding crest_process Refused
  crest_process-refuses heap mhd crest x a is = (
    λ e. rw (e, crest_process) (send_error-Refused heap mhd a (with_path x) 404 _ is),
    λ res e no_cb.
        rw (e, same_method x.req, no_cb, crest_process)
          (send_error-Refused heap mhd a (with_path x) 501 _ is),
  )
