-- ===== src/Api/Bodies.antt =====
-- The body that the application gives, and the body that is sent.
use quicsend.Base.{
  ℕ, ◌^◌, ◌<◌, ◌≡◌, sym, ap, ◌∙◌, ◌↔◌, pos_part, List, ◌∷◌, arith, length, take, take_all,
  length-take, Option, String,
}
use quicsend.Messages.{contents, payload_of}
use quicsend.Api.{buffer, to_int32, body_data}

-- The payload of a buffer: as many bytes as its length says in 32 bits, and none at a sign.
payload-body_data :
    (content_type : Option String) (bytes : List ℕ)
    → payload_of
        (contents (body_data (record { content_type = content_type; object = buffer bytes })))
      ≡ take (pos_part (to_int32 (length bytes))) bytes
unfolding payload_of contents body_data
payload-body_data content_type bytes = ground arith

-- A body given as a buffer of at least one byte is sent as it is exactly when it has fewer than 2
-- ^ 31 bytes.
pub payload-body_data_iff :
    (content_type : Option String) (b : ℕ) (rest : List ℕ)
    → let bytes : List ℕ = b ∷ rest in
      (payload_of
          (contents (body_data (record { content_type = content_type; object = buffer bytes })))
        ≡ bytes)
      ↔ (length bytes < 2 ^ 31)
payload-body_data_iff content_type b rest =
    let bytes : List ℕ = b ∷ rest in
    let n = pos_part (to_int32 (length bytes)) in
    (
      λ e.
          let short : length (take n bytes) ≡ length bytes =
            ap length (sym (payload-body_data content_type bytes) ∙ e) in
          ground (arith, short, length-take n bytes),
      λ h. payload-body_data content_type bytes ∙ take_all n bytes (ground arith),
    )
