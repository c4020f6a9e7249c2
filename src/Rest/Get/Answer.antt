-- ===== src/Rest/Get/Answer.antt =====
-- What the REST backend answers.
use mathlib.Core.Path.{subst}
use optics_light.Buffer.{Buffer, Heap, empty_buffer, buffer_write}
use optics_light.Buffer.Content.{
  Holds, Holds-empty, Holds-content, buffer_put-Holds, buffer_write-Holds,
}
use optics_light.Crest.Resp.{CrestResp, crest_resp_write}
use optics_light.Crest.Resp.Headers.{header, crest_resp_add_header_lem}
use optics_light.Crest.Service.{crest_ok}
use optics_light.Crest.Service.Status.{IsResp}
use optics_light.Htable.{same_key}
use optics_light.Htable.Rehash.{IsValid, view}
use optics_light.Rest.{Metric, Rest}
use optics_light.Rest.Get.{Prints, write_metrics, current_rows, rest_get}
use optics_light.Rest.Get.Json.{
  print, print_members, print_more, object, rows_json, row_text, write_counter-Holds,
}
use optics_light.Prelude.{
  ℕ, suc, ◌+◌, ◌<◌, ◌≡◌, refl, ◌≢◌, sym, some, List, [], ◌∷◌, ◌++◌, take, lt→ltb, if◌then◌else◌,
  append_assoc, append-nil, arith,
}

written :
    (heap : Heap) (resp : CrestResp) (bytes : List ℕ) (d : Buffer)
    → buffer_write heap resp.body bytes ≡ some d
    → crest_resp_write heap resp bytes ≡ some (record resp { body = d })
unfolding crest_resp_write
written heap resp bytes d e = rw (e, crest_resp_write) refl

abbrev pub content_type : List ℕ
content_type =
    (b'c' ∷ b'o' ∷ b'n' ∷ b't' ∷ b'e' ∷ b'n' ∷ b't' ∷ b'-' ∷ b't' ∷ b'y' ∷ b'p' ∷ b'e' ∷ [])

abbrev pub text_plain : List ℕ
text_plain = (b't' ∷ b'e' ∷ b'x' ∷ b't' ∷ b'/' ∷ b'p' ∷ b'l' ∷ b'a' ∷ b'i' ∷ b'n' ∷ [])

module _ {D : Type 0} (heap : Heap) (prints : Prints D) where
  row_more :
      (content : List ℕ) (m : Metric D) (ms : List (Metric D))
      → ((content ++ (b',' ∷ [])) ++ row_text prints m.key m.value)
          ++ print_more (rows_json prints ms)
        ≡ content ++ print_more (rows_json prints (m ∷ ms))
  unfolding row_text rows_json print_more
  row_more content m ms = simp append_assoc refl

  row_first :
      (content : List ℕ) (m : Metric D) (ms : List (Metric D))
      → (content ++ row_text prints m.key m.value) ++ print_more (rows_json prints ms)
        ≡ content ++ print_members (rows_json prints (m ∷ ms))
  unfolding row_text rows_json print_members
  row_first content m ms = simp append_assoc refl

  write_more :
      (content : List ℕ) (buffer : Buffer) (i : ℕ) (ms : List (Metric D))
      → 0 < i
      → Holds content buffer
      → (out : Buffer) × (write_metrics heap prints buffer i ms ≡ some out)
        × Holds (content ++ print_more (rows_json prints ms)) out
  unfolding write_metrics
  write_more content buffer i [] pos h =
      (buffer, refl, unfold rows_json print_more in rw append-nil h)
  write_more content buffer i (m ∷ ms) pos h =
      let (a, put, ha) = buffer_put-Holds heap content b',' buffer h in
      let (b, row, hb) = write_counter-Holds prints heap (content ++ (b',' ∷ [])) a m ha in
      let (out, run, ho) =
        write_more ((content ++ (b',' ∷ [])) ++ row_text prints m.key m.value) b (i + 1) ms
          (omega arith) hb in
      (out, rw (lt→ltb 0 i pos, put, row) run, subst (λ t. Holds t out) (row_more content m ms) ho)

  write_metrics-Holds :
      (content : List ℕ) (buffer : Buffer) (ms : List (Metric D))
      → Holds content buffer
      → (out : Buffer) × (write_metrics heap prints buffer 0 ms ≡ some out)
        × Holds (content ++ print_members (rows_json prints ms)) out
  unfolding write_metrics
  write_metrics-Holds content buffer [] h =
      (buffer, refl, unfold rows_json print_members in rw append-nil h)
  write_metrics-Holds content buffer (m ∷ ms) h =
      let (b, row, hb) = write_counter-Holds prints heap content buffer m h in
      let (out, run, ho) =
        write_more (content ++ row_text prints m.key m.value) b 1 ms (omega arith) hb in
      (out, rw row run, subst (λ t. Holds t out) (row_first content m ms) ho)

  -- On a response with a valid table of fewer than eight headers, and with an address for the new
  -- header that no other has, `rest_get` returns `crest_ok` and has added to the body one JSON object,
  -- which has each metric that is served under its key, and nothing else; the content type is plain
  -- text, the other headers stay, and nothing is sent. The object of a histogram has what lies above
  -- its range under "below" and what lies below under "above".
  pub rest_get_lem :
      (fuel address : ℕ) (rest : Rest D) (resp : CrestResp)
      → IsValid resp.headers
      → resp.headers.len < 8
      → ((q : List ℕ) → view resp.headers q ≢ some address)
      → (is : IsResp resp)
      → (out : CrestResp) × (rest_get heap prints (suc fuel) address rest resp
          ≡ some (crest_ok, out))
        × Holds (is.content ++ print (object (rows_json prints (current_rows rest)))) out.body
        × (out.sent ≡ resp.sent)
        × ((q : List ℕ)
            → header out q ≡ (if same_key content_type q then some text_plain else header resp q))
  unfolding rest_get header print
  rest_get_lem fuel address rest resp v few fresh is =
      let (a, put, ha) = buffer_put-Holds heap [] b'{' empty_buffer Holds-empty in
      let (b, rows, hb) = write_metrics-Holds (b'{' ∷ []) a (current_rows rest) ha in
      let (c, close, hc) =
        buffer_put-Holds heap (b'{' ∷ print_members (rows_json prints (current_rows rest))) b'}' b
          hb in
      let (headed, added, has) =
        crest_resp_add_header_lem resp content_type text_plain address fuel v few fresh in
      let (d, wrote, hd) =
        buffer_write-Holds heap is.content (take c.len c.cells) headed.body
          (subst (Holds is.content) (sym has.body) is.holds) in
      (
        record headed { body = d },
        rw (put, rows, close, added, written heap headed (take c.len c.cells) d wrote) refl,
        subst (λ t. Holds (is.content ++ t) d) (Holds-content _ c hc) hd,
        has.sent,
        has.reads,
      )
