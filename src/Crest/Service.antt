-- ===== src/Crest/Service.antt =====
-- The service: src/utils/crest/crest.c. `C` stands for what the resources' contexts point to, and `W`
-- for all else that their callbacks change.
pub mod Status
pub mod Process
use optics_light.Buffer.{Heap}
use optics_light.Crest.Path.{path_new}
use optics_light.Crest.Path.Items.{path_rest}
use optics_light.Crest.Router.{Router, new_router, router_add, router_route}
use optics_light.Crest.Req.{
  CrestReq, CrestMethod, crest_get, crest_put, crest_post, crest_delete, crest_unsupported,
  crest_req_get_method, crest_req_get_path,
}
use optics_light.Crest.Resp.{CrestResp, Mhd, crest_resp_send, crest_resp_send_error}
use optics_light.Prelude.{
  ℕ, Option, none, some, List, [], ◌∷◌, Bool, true, false, ◌==◌, if◌then◌else◌, not,
}

-- `enum crest_result`, which a callback returns as an int
abbrev pub crest_ok : ℕ
crest_ok = 0

abbrev pub crest_err : ℕ
crest_err = 1

abbrev pub crest_conflict : ℕ
crest_conflict = 2

-- What a callback can change.
pub record Exchange (W : Type 0) : Type 0 where
  pub req : CrestReq
  pub resp : CrestResp
  pub world : W

-- A test gets the request only.
abbrev pub CrestTestCb : Type 0 → Type 0 → Type 0
CrestTestCb C W = C → CrestReq → W → Bool × (CrestReq × W)

abbrev pub CrestResourceCb : Type 0 → Type 0 → Type 0
CrestResourceCb C W = C → Exchange W → ℕ × Exchange W

-- A callback that is NULL is `none`.
pub record CrestRes (C W : Type 0) : Type 0 where
  pub path : List ℕ
  pub context : C
  pub authorized : Option (CrestTestCb C W)
  pub forbidden : Option (CrestTestCb C W)
  pub accepts : Option (CrestTestCb C W)
  pub exists : Option (CrestTestCb C W)
  pub get : Option (CrestResourceCb C W)
  pub put : Option (CrestResourceCb C W)
  pub post : Option (CrestResourceCb C W)
  pub delete : Option (CrestResourceCb C W)

-- The daemon belongs to libmicrohttpd.
pub record Crest (C W : Type 0) : Type 0 where
  pub routes : Router (CrestRes C W)
  pub started : Bool

-- `none` is an abort.
module _ {W : Type 0} (heap : Heap) (mhd : Mhd) where
  unfoldable pub send : Exchange W → ℕ → Option (Exchange W)
  send x code = elim (crest_resp_send mhd x.resp code) [
    | none ↦ none
    | some resp ↦ some (record x { resp = resp })
  ]

  unfoldable pub send_error : Exchange W → ℕ → List ℕ → Option (Exchange W)
  send_error x code reason = elim (crest_resp_send_error heap mhd x.resp code reason) [
    | none ↦ none
    | some resp ↦ some (record x { resp = resp })
  ]

module _ {C W : Type 0} where
  unfoldable pub crest_new : Crest C W
  crest_new = record { routes = new_router; started = false }

  -- `daemon` is whether the daemon starts.
  unfoldable pub crest_bind : Bool → Crest C W → Bool × Crest C W
  crest_bind daemon crest =
      if daemon then (true, record crest { started = true }) else (false, crest)

  unfoldable pub crest_add : Crest C W → CrestRes C W → Bool × Crest C W
  crest_add crest res =
      if crest.started
      then (false, crest)
      else (let added = router_add (path_rest (path_new res.path)) res crest.routes in
          (added.0, record crest { routes = added.1 }))

  -- `!test || test(context, req)`
  unfoldable pub run_test : Option (CrestTestCb C W) → C → Exchange W → Bool × Exchange W
  run_test none context x = (true, x)
  run_test (some test) context x =
      let r = test context x.req x.world in (r.0, record x { req = r.1.0; world = r.1.1 })

  unfoldable pub callback : CrestRes C W → CrestMethod → Option (CrestResourceCb C W)
  callback res crest_get = res.get
  callback res crest_put = res.put
  callback res crest_post = res.post
  callback res crest_delete = res.delete
  callback res crest_unsupported = none

  -- `none` is an abort.
  module _ (heap : Heap) (mhd : Mhd) where
    unfoldable pub crest_call_cb :
        Exchange W → CrestRes C W → CrestResourceCb C W → ℕ → Option (Exchange W)
    crest_call_cb x res cb code =
        let r = cb res.context x in
        if r.0 == crest_ok
        then send heap mhd r.1 code
        else if r.0 == crest_err
        then send_error heap mhd r.1 500 (
            b'i' ∷ b'n' ∷ b't' ∷ b'e' ∷ b'r' ∷ b'n' ∷ b'a' ∷ b'l' ∷ b' ' ∷ b's' ∷ b'e' ∷ b'r' ∷ b'v'
            ∷ b'e' ∷ b'r' ∷ b' ' ∷ b'e' ∷ b'r' ∷ b'r' ∷ b'o' ∷ b'r' ∷ [])
        else if r.0 == crest_conflict
        then send_error heap mhd r.1 409
            (b'c' ∷ b'o' ∷ b'n' ∷ b'f' ∷ b'l' ∷ b'i' ∷ b'c' ∷ b't' ∷ [])
        else none

    -- The two switches at the end of `crest_process`.
    unfoldable pub call_existing :
        Exchange W → CrestRes C W → CrestResourceCb C W → CrestMethod → Option (Exchange W)
    call_existing x res cb crest_get = crest_call_cb x res cb 200
    call_existing x res cb crest_post = crest_call_cb x res cb 204
    call_existing x res cb crest_delete = crest_call_cb x res cb 204
    call_existing x res cb crest_put = send_error heap mhd x 409 (
        b'r' ∷ b'e' ∷ b's' ∷ b'o' ∷ b'u' ∷ b'r' ∷ b'c' ∷ b'e' ∷ b' ' ∷ b'a' ∷ b'l' ∷ b'r' ∷ b'e'
        ∷ b'a' ∷ b'd' ∷ b'y' ∷ b' ' ∷ b'e' ∷ b'x' ∷ b'i' ∷ b's' ∷ b't' ∷ b's' ∷ [])
    call_existing x res cb crest_unsupported = none

    unfoldable pub call_missing :
        Exchange W → CrestRes C W → CrestResourceCb C W → CrestMethod → Option (Exchange W)
    call_missing x res cb crest_put = crest_call_cb x res cb 201
    call_missing x res cb crest_post = crest_call_cb x res cb 201
    call_missing x res cb crest_get = send_error heap mhd x 404 (
        b'r' ∷ b'e' ∷ b's' ∷ b'o' ∷ b'u' ∷ b'r' ∷ b'c' ∷ b'e' ∷ b' ' ∷ b'd' ∷ b'o' ∷ b'e' ∷ b's'
        ∷ b'n' ∷ 39 ∷ b't' ∷ b' ' ∷ b'e' ∷ b'x' ∷ b'i' ∷ b's' ∷ b't' ∷ [])
    call_missing x res cb crest_delete = send_error heap mhd x 404 (
        b'r' ∷ b'e' ∷ b's' ∷ b'o' ∷ b'u' ∷ b'r' ∷ b'c' ∷ b'e' ∷ b' ' ∷ b'd' ∷ b'o' ∷ b'e' ∷ b's'
        ∷ b'n' ∷ 39 ∷ b't' ∷ b' ' ∷ b'e' ∷ b'x' ∷ b'i' ∷ b's' ∷ b't' ∷ [])
    call_missing x res cb crest_unsupported = none

    -- The tests of a resource, once there is a callback.
    unfoldable pub guarded :
        Exchange W → CrestRes C W → CrestResourceCb C W → CrestMethod → Option (Exchange W)
    guarded x res cb method =
        let a = run_test res.authorized res.context x in
        let f = run_test res.forbidden res.context a.1 in
        let c = run_test res.accepts res.context f.1 in
        let e = run_test res.exists res.context c.1 in
        if not a.0
        then send_error heap mhd a.1 401
            (b'u' ∷ b'n' ∷ b'a' ∷ b'u' ∷ b't' ∷ b'h' ∷ b'o' ∷ b'r' ∷ b'i' ∷ b'z' ∷ b'e' ∷ b'd' ∷ [])
        else if not f.0
        then send_error heap mhd f.1 403
            (b'f' ∷ b'o' ∷ b'r' ∷ b'b' ∷ b'i' ∷ b'd' ∷ b'd' ∷ b'e' ∷ b'n' ∷ [])
        else if not c.0
        then send_error heap mhd c.1 406 (
            b'n' ∷ b'o' ∷ b't' ∷ b' ' ∷ b'a' ∷ b'c' ∷ b'c' ∷ b'e' ∷ b'p' ∷ b't' ∷ b'a' ∷ b'b' ∷ b'l'
            ∷ b'e' ∷ [])
        else if e.0
        then call_existing e.1 res cb method
        else call_missing e.1 res cb method

    unfoldable pub crest_process : Crest C W → Exchange W → Option (Exchange W)
    crest_process crest x =
        let got = crest_req_get_path x.req in
        let y = record x { req = got.1 } in
        elim (router_route (path_rest got.0) crest.routes) [
          | none ↦ send_error heap mhd y 404 (
              b'u' ∷ b'n' ∷ b'k' ∷ b'n' ∷ b'o' ∷ b'w' ∷ b'n' ∷ b' ' ∷ b'r' ∷ b'e' ∷ b's' ∷ b'o'
              ∷ b'u' ∷ b'r' ∷ b'c' ∷ b'e' ∷ [])
          | some res ↦ elim (callback res (crest_req_get_method y.req)) [
            | none ↦ send_error heap mhd y 501 (
                b'n' ∷ b'o' ∷ b't' ∷ b' ' ∷ b'i' ∷ b'm' ∷ b'p' ∷ b'l' ∷ b'e' ∷ b'm' ∷ b'e' ∷ b'n'
                ∷ b't' ∷ b'e' ∷ b'd' ∷ [])
            | some cb ↦ guarded y res cb (crest_req_get_method y.req)
          ]
        ]
