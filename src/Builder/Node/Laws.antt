-- ===== src/Builder/Node/Laws.antt =====
-- A node that was built: its parts fit together.
use rosy.Base.{ℕ, ◌*◌, ◌^◌, ◌≡◌, refl, sym, ap, ◌∙◌, subst, false, List, ◌++◌, false, arith}
use rosy.Base.Int.{pos}
use rosy.Base.Exec.{Result, ok, err}
use rosy.Stream.{Bytes}
use rosy.Codec.Bytes.{Fits}
use rosy.Message.{ServiceRequest}
use rosy.Message.Node.{
  NodeMessageCodec, encode_service_request, decode_topic_message_or_service_request,
}
use rosy.Service.Caller.{Caller, enter_request}
use rosy.Service.Caller.Routing.{Event, run}
use rosy.Service.Caller.Reach.{new_caller, new_caller-Fits}
use rosy.Base.{inr}
use rosy.Builder.Codec.{Serializers, build_data_codec}
use rosy.Builder.Codec.Wire.{
  built, build_node_message_codec-built, TextBelow, ArgsFit, RequestFits, request_arrives,
}
use rosy.Builder.Node.{
  Machine, Settings, ServerProvider, Built, server_providers_of, request_id_bytes, assemble,
  build_parts,
}

-- The node's codec.
abbrev pub codec_of :
    {Data S : Type 0} → Data → Serializers Data → Settings Data S → NodeMessageCodec Data
codec_of null libs settings = built null libs request_id_bytes settings.data_codec

module _ {Data S TC SC : Type 0} (null : Data) (libs : Serializers Data) (machine : Machine) where
  -- What a build gives for the server providers that it got.
  abbrev pub finished : Settings Data S → Result (List ServerProvider) → Result (Built Data S TC SC)
  finished settings (err e) = err e
  finished settings (ok providers) =
      ok (assemble null libs machine settings (codec_of null libs settings) providers)

  pub build_parts_lem :
      (settings : Settings Data S)
      → build_parts null libs machine settings
        ≡ finished settings (server_providers_of machine settings)
  unfolding build_parts
  build_parts_lem settings =
      rw
        (build_node_message_codec-built null libs request_id_bytes settings.data_codec, build_parts)
        refl

  finished-codec :
      (settings : Settings Data S) (r : Result (List ServerProvider)) (b : Built Data S TC SC)
      → finished settings r ≡ ok b
      → (b.node_message_codec ≡ codec_of null libs settings)
        × (b.service_caller ≡ new_caller (2 ^ (8 * request_id_bytes)))
  unfolding assemble
  finished-codec settings (err e) b h = absurd (ground (arith, h))
  finished-codec settings (ok providers) b h = (
    sym (
        ap
          (λ r. elim r as (λ _. NodeMessageCodec Data) [
            | ok x ↦ x.node_message_codec
            | err _ ↦ codec_of null libs settings
          ])
          h),
    sym (
        ap
          (λ r. elim r as (λ _. Caller Data) [
            | ok x ↦ x.service_caller
            | err _ ↦ new_caller (2 ^ (8 * request_id_bytes))
          ])
          h),
  )

  -- The caller and the codec of a node that was built agree: whatever requests, responses, closings
  -- and cancellations its caller has seen, when a request is registered and its service and
  -- arguments are within the limits of the codec, then it is encoded, and it is read back as it
  -- was, with its id, whatever follows.
  pub build_parts-request_arrives :
      (settings : Settings Data S) (b : Built Data S TC SC) (es : List (Event Data))
      (reader id k : ℕ) (c' : Caller Data) (request : ServiceRequest Data)
      → build_parts null libs machine settings ≡ ok b
      → enter_request reader (run es b.service_caller) ≡ (ok (id, k), c')
      → request.id ≡ pos id
      → TextBelow 256 request.service
      → ArgsFit (build_data_codec libs settings.data_codec) request.args request.kwargs
      → (wire : Bytes) × (encode_service_request b.node_message_codec request ≡ ok wire)
        × ((rest : Bytes)
            → decode_topic_message_or_service_request b.node_message_codec (wire ++ rest)
              ≡ (ok (inr request), rest))
  build_parts-request_arrives settings b es reader id k c' request h entered is_id short fit =
      let (codec, caller) =
        finished-codec settings (server_providers_of machine settings) b
          (sym (build_parts_lem settings) ∙ h) in
      let entered' = ap (λ c. enter_request reader (run es c)) (sym caller) ∙ entered in
      let fits_id : Fits request_id_bytes false (pos id) =
        new_caller-Fits request_id_bytes es reader id k c' (omega arith) entered' in
      let fits : RequestFits (build_data_codec libs settings.data_codec) request_id_bytes request =
        record {
          id_fits = subst (Fits request_id_bytes false) (sym is_id) fits_id;
          service_short = short;
          arguments = fit;
        } in
      subst
        (λ codec'.
          (wire : Bytes) × (encode_service_request codec' request ≡ ok wire)
          × ((rest : Bytes)
              → decode_topic_message_or_service_request codec' (wire ++ rest)
                ≡ (ok (inr request), rest)))
        (sym codec) (request_arrives null libs request_id_bytes settings.data_codec request fits)
