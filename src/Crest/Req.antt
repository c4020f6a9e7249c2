-- ===== src/Crest/Req.antt =====
-- Requests: src/utils/crest/req.c. The connection, the version and the headers of a request belong to
-- libmicrohttpd and are left out. A path that is NULL is `none`.
use optics_light.Htable.{str_eq}
use optics_light.Crest.Path.{CrestPath, path_new, path_token, path_tokens}
use optics_light.Prelude.{
  ℕ, ◌+◌, ◌-◌, Option, none, some, List, [], ◌∷◌, Bool, if◌then◌else◌, ltb, take, length,
}

pub data CrestMethod : Type 0 where
  crest_get crest_put crest_post crest_delete crest_unsupported : CrestMethod

pub record CrestReq : Type 0 where
  pub url : List ℕ
  pub method : List ℕ
  pub data_bytes : List ℕ
  pub data_len : ℕ
  pub data_pos : ℕ
  pub path : Option CrestPath

-- `strncmp(method, value, sizeof(method)) == 0`, the nil of the literal counted
unfoldable pub is_method : List ℕ → List ℕ → Bool
is_method value method = str_eq (take (length method + 1) method) (take (length method + 1) value)

unfoldable pub crest_req_get_method : CrestReq → CrestMethod
crest_req_get_method req =
    if is_method req.method (b'G' ∷ b'E' ∷ b'T' ∷ [])
    then crest_get
    else if is_method req.method (b'P' ∷ b'O' ∷ b'S' ∷ b'T' ∷ [])
    then crest_post
    else if is_method req.method (b'P' ∷ b'U' ∷ b'T' ∷ [])
    then crest_put
    else if is_method req.method (b'D' ∷ b'E' ∷ b'L' ∷ b'E' ∷ b'T' ∷ b'E' ∷ [])
    then crest_delete
    else crest_unsupported

unfoldable pub crest_req_get_uri : CrestReq → List ℕ
crest_req_get_uri req = req.url

unfoldable pub crest_req_get_path : CrestReq → CrestPath × CrestReq
crest_req_get_path req = elim req.path [
  | none ↦ (path_new req.url, record req { path = some (path_new req.url) })
  | some path ↦ (path, req)
]

unfoldable pub crest_req_get_path_tokens : CrestReq → ℕ × CrestReq
crest_req_get_path_tokens req = let got = crest_req_get_path req in (path_tokens got.0, got.1)

unfoldable pub crest_req_get_path_token : CrestReq → ℕ → Option (List ℕ) × CrestReq
crest_req_get_path_token req i = let got = crest_req_get_path req in (path_token got.0 i, got.1)

-- The bytes that `memcpy` puts at `dest`; their number is what the function returns.
unfoldable pub crest_req_read : CrestReq → ℕ → List ℕ
crest_req_read req max =
    let leftover = req.data_len - req.data_pos in
    let len = if ltb leftover max then leftover else max in take len req.data_bytes
