-- ===== src/Crest/Body.antt =====
-- The body of a request and the callback of libmicrohttpd: the end of src/utils/crest/crest.c.
pub mod Received
use optics_light.Buffer.{Heap, empty_buffer}
use optics_light.Htable.{empty_htable}
use optics_light.Memory.{write_at}
use optics_light.Crest.Req.{CrestReq}
use optics_light.Crest.Resp.{CrestResp, Mhd}
use optics_light.Crest.Service.{Exchange, Crest, crest_process}
use optics_light.Prelude.{
  ℕ, ◌+◌, ◌-◌, ◌^◌, Option, none, some, List, [], ◌∷◌, Bool, true, false, ◌==◌, ◌&&◌, if◌then◌else◌,
  ltb, take, length, replicate,
}

pub record Body : Type 0 where
  pub cap : ℕ
  pub pos : ℕ
  pub bytes : List ℕ

-- What is asked of the C library on the value of a header: the number and whether `errno` is ERANGE.
pub record Strtoul : Type 0 where
  pub number : List ℕ → ℕ
  pub is_erange : List ℕ → Bool

-- An `ssize_t`, as its 64 bits.
unfoldable pub get_content_length : Strtoul → Option (List ℕ) → ℕ
get_content_length strtoul none = 0
get_content_length strtoul (some value) =
    if strtoul.number value == 2 ^ 64 - 1 && strtoul.is_erange value
    then 2 ^ 64 - 1
    else strtoul.number value

-- `calloc(1, sizeof(*body) + content_length)`
unfoldable pub new_body : ℕ → Body
new_body content_length = record {
  cap = content_length;
  pos = 0;
  bytes = replicate content_length 0;
}

unfoldable pub body_append : Body → List ℕ → Body
body_append body bytes =
    let len =
      if ltb body.cap (body.pos + length bytes) then body.cap - body.pos else length bytes in
    record body { pos = body.pos + len; bytes = write_at body.bytes body.pos (take len bytes) }

-- What a call leaves: a body that waits for more, or the outcome of `crest_process`.
pub data Turn (W : Type 0) : Type 0 where
  waits : Option Body → Turn W
  done : Option (Exchange W) → Turn W

unfoldable pub is_empty : List ℕ → Bool
is_empty [] = true
is_empty (_ ∷ _) = false

-- `struct crest_resp resp = { .conn = conn }`
abbrev pub new_resp : CrestResp
new_resp = record { headers = empty_htable; values = λ _. []; body = empty_buffer; sent = [] }

-- `struct crest_req req` of `microhttpd_cb`
unfoldable pub request_of : List ℕ → List ℕ → Option Body → CrestReq
request_of url method none = record {
  url = url;
  method = method;
  data_bytes = [];
  data_len = 0;
  data_pos = 0;
  path = none;
}
request_of url method (some body) = record {
  url = url;
  method = method;
  data_bytes = body.bytes;
  data_len = body.cap;
  data_pos = 0;
  path = none;
}

-- The body that the first call makes. A negative length is taken as no length: the test for it has no
-- effect.
unfoldable pub first_body : ℕ → Option Body
first_body content_length =
    if ltb 0 content_length && ltb content_length (2 ^ 63)
    then some (new_body content_length)
    else none

module _ {C W : Type 0} (heap : Heap) (mhd : Mhd) (strtoul : Strtoul) (crest : Crest C W)
    (world : W) (length_header : Option (List ℕ)) (url method : List ℕ) where
  unfoldable pub process : Option Body → Turn W
  process body = done (
      crest_process heap mhd crest
        (record { req = request_of url method body; resp = new_resp; world = world }))

  -- `if (body && *data_len)` and what follows
  unfoldable pub append_or_process : Option Body → List ℕ → Turn W
  append_or_process none bytes = process none
  append_or_process (some body) bytes =
      if is_empty bytes then process (some body) else waits (some (body_append body bytes))

  unfoldable pub microhttpd_cb : Option Body → List ℕ → Turn W
  microhttpd_cb (some body) bytes = append_or_process (some body) bytes
  microhttpd_cb none bytes = elim (first_body (get_content_length strtoul length_header)) [
    | none ↦ append_or_process none bytes
    | some body ↦ if is_empty bytes then waits (some body) else append_or_process (some body) bytes
  ]

  -- The calls for one request, up to the one that processes it.
  unfoldable pub calls : Option Body → List (List ℕ) → Turn W
  calls args [] = waits args
  calls args (bytes ∷ more) = elim (microhttpd_cb args bytes) [
    | waits body ↦ calls body more
    | done out ↦ done out
  ]
