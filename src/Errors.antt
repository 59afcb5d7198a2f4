-- ===== src/Errors.antt =====
-- src/quicsend_quiche.cpp, "Error Strings": the names of the error codes of quiche. The codes
-- themselves are the constants of quiche.h, which is not part of the repository: `code` gives the
-- value of a constant by its name.
pub mod Naming
use quicsend.Base.{ℤ, int_eq, List, [], ◌∷◌, String, if◌then◌else◌}

-- A `switch` over an error whose cases return literals: each case label with its literal.
unfoldable pub switch : (String → ℤ) → List (String × String) → ℤ → String
switch code [] error = "UNKNOWN_ERROR"
switch code ((label, text) ∷ cases) error =
    if int_eq error (code label) then text else switch code cases error

abbrev pub h3_cases : List (String × String)
h3_cases =
    ("QUICHE_H3_ERR_DONE", "QUICHE_H3_ERR_DONE")
    ∷ ("QUICHE_H3_ERR_BUFFER_TOO_SHORT", "QUICHE_H3_ERR_BUFFER_TOO_SHORT")
    ∷ ("QUICHE_H3_ERR_INTERNAL_ERROR", "QUICHE_H3_ERR_INTERNAL_ERROR")
    ∷ ("QUICHE_H3_ERR_EXCESSIVE_LOAD", "QUICHE_H3_ERR_EXCESSIVE_LOAD")
    ∷ ("QUICHE_H3_ERR_ID_ERROR", "QUICHE_H3_ERR_ID_ERROR")
    ∷ ("QUICHE_H3_ERR_STREAM_CREATION_ERROR", "QUICHE_H3_ERR_STREAM_CREATION_ERROR")
    ∷ ("QUICHE_H3_ERR_CLOSED_CRITICAL_STREAM", "QUICHE_H3_ERR_CLOSED_CRITICAL_STREAM")
    ∷ ("QUICHE_H3_ERR_MISSING_SETTINGS", "QUICHE_H3_ERR_MISSING_SETTINGS")
    ∷ ("QUICHE_H3_ERR_FRAME_UNEXPECTED", "QUICHE_H3_ERR_FRAME_UNEXPECTED")
    ∷ ("QUICHE_H3_ERR_FRAME_ERROR", "QUICHE_H3_ERR_FRAME_ERROR")
    ∷ ("QUICHE_H3_ERR_QPACK_DECOMPRESSION_FAILED", "QUICHE_H3_ERR_QPACK_DECOMPRESSION_FAILED")
    ∷ ("QUICHE_H3_ERR_STREAM_BLOCKED", "QUICHE_H3_ERR_STREAM_BLOCKED")
    ∷ ("QUICHE_H3_ERR_SETTINGS_ERROR", "QUICHE_H3_ERR_SETTINGS_ERROR")
    ∷ ("QUICHE_H3_ERR_REQUEST_REJECTED", "QUICHE_H3_ERR_REQUEST_REJECTED")
    ∷ ("QUICHE_H3_ERR_REQUEST_CANCELLED", "QUICHE_H3_ERR_REQUEST_CANCELLED")
    ∷ ("QUICHE_H3_ERR_REQUEST_INCOMPLETE", "QUICHE_H3_ERR_REQUEST_INCOMPLETE")
    ∷ ("QUICHE_H3_ERR_MESSAGE_ERROR", "QUICHE_H3_ERR_MESSAGE_ERROR")
    ∷ ("QUICHE_H3_ERR_CONNECT_ERROR", "QUICHE_H3_ERR_CONNECT_ERROR")
    ∷ ("QUICHE_H3_ERR_VERSION_FALLBACK", "QUICHE_H3_ERR_VERSION_FALLBACK")
    ∷ ("QUICHE_H3_TRANSPORT_ERR_DONE", "QUICHE_H3_TRANSPORT_ERR_DONE")
    ∷ ("QUICHE_H3_TRANSPORT_ERR_BUFFER_TOO_SHORT", "QUICHE_H3_TRANSPORT_ERR_BUFFER_TOO_SHORT")
    ∷ ("QUICHE_H3_TRANSPORT_ERR_UNKNOWN_VERSION", "QUICHE_H3_TRANSPORT_ERR_UNKNOWN_VERSION")
    ∷ ("QUICHE_H3_TRANSPORT_ERR_INVALID_FRAME", "QUICHE_H3_TRANSPORT_ERR_INVALID_FRAME")
    ∷ ("QUICHE_H3_TRANSPORT_ERR_INVALID_PACKET", "QUICHE_H3_TRANSPORT_ERR_INVALID_PACKET")
    ∷ ("QUICHE_H3_TRANSPORT_ERR_INVALID_STATE", "QUICHE_H3_TRANSPORT_ERR_INVALID_STATE")
    ∷ (
      "QUICHE_H3_TRANSPORT_ERR_INVALID_STREAM_STATE",
      "QUICHE_H3_TRANSPORT_ERR_INVALID_STREAM_STATE",
    )
    ∷ (
      "QUICHE_H3_TRANSPORT_ERR_INVALID_TRANSPORT_PARAM",
      "QUICHE_H3_TRANSPORT_ERR_INVALID_TRANSPORT_PARAM",
    )
    ∷ ("QUICHE_H3_TRANSPORT_ERR_CRYPTO_FAIL", "QUICHE_H3_TRANSPORT_ERR_CRYPTO_FAIL")
    ∷ ("QUICHE_H3_TRANSPORT_ERR_TLS_FAIL", "QUICHE_H3_TRANSPORT_ERR_TLS_FAIL")
    ∷ ("QUICHE_H3_TRANSPORT_ERR_FLOW_CONTROL", "QUICHE_H3_TRANSPORT_ERR_FLOW_CONTROL")
    ∷ ("QUICHE_H3_TRANSPORT_ERR_STREAM_LIMIT", "QUICHE_H3_TRANSPORT_ERR_STREAM_LIMIT")
    ∷ ("QUICHE_H3_TRANSPORT_ERR_STREAM_STOPPED", "QUICHE_H3_TRANSPORT_ERR_STREAM_STOPPED")
    ∷ ("QUICHE_H3_TRANSPORT_ERR_STREAM_RESET", "QUICHE_H3_TRANSPORT_ERR_STREAM_RESET")
    ∷ ("QUICHE_H3_TRANSPORT_ERR_FINAL_SIZE", "QUICHE_H3_TRANSPORT_ERR_FINAL_SIZE")
    ∷ ("QUICHE_H3_TRANSPORT_ERR_CONGESTION_CONTROL", "QUICHE_H3_TRANSPORT_ERR_CONGESTION_CONTROL")
    ∷ ("QUICHE_H3_TRANSPORT_ERR_ID_LIMIT", "QUICHE_H3_TRANSPORT_ERR_ID_LIMIT")
    ∷ ("QUICHE_H3_TRANSPORT_ERR_OUT_OF_IDENTIFIERS", "QUICHE_H3_TRANSPORT_ERR_OUT_OF_IDENTIFIERS")
    ∷ ("QUICHE_H3_TRANSPORT_ERR_KEY_UPDATE", "QUICHE_H3_TRANSPORT_ERR_KEY_UPDATE")
    ∷ []

abbrev pub quiche_cases : List (String × String)
quiche_cases =
    ("QUICHE_ERR_DONE", "QUICHE_ERR_DONE")
    ∷ ("QUICHE_ERR_BUFFER_TOO_SHORT", "QUICHE_ERR_BUFFER_TOO_SHORT")
    ∷ ("QUICHE_ERR_UNKNOWN_VERSION", "QUICHE_ERR_UNKNOWN_VERSION")
    ∷ ("QUICHE_ERR_INVALID_FRAME", "QUICHE_ERR_INVALID_FRAME")
    ∷ ("QUICHE_ERR_INVALID_PACKET", "QUICHE_ERR_INVALID_PACKET")
    ∷ ("QUICHE_ERR_INVALID_STATE", "QUICHE_ERR_INVALID_STATE")
    ∷ ("QUICHE_ERR_INVALID_STREAM_STATE", "QUICHE_ERR_INVALID_STREAM_STATE")
    ∷ ("QUICHE_ERR_INVALID_TRANSPORT_PARAM", "QUICHE_ERR_INVALID_TRANSPORT_PARAM")
    ∷ ("QUICHE_ERR_CRYPTO_FAIL", "QUICHE_ERR_CRYPTO_FAIL")
    ∷ ("QUICHE_ERR_TLS_FAIL", "QUICHE_ERR_TLS_FAIL")
    ∷ ("QUICHE_ERR_FLOW_CONTROL", "QUICHE_ERR_FLOW_CONTROL")
    ∷ ("QUICHE_ERR_STREAM_LIMIT", "QUICHE_ERR_STREAM_LIMIT")
    ∷ ("QUICHE_ERR_STREAM_STOPPED", "QUICHE_ERR_STREAM_STOPPED")
    ∷ ("QUICHE_ERR_STREAM_RESET", "QUICHE_ERR_STREAM_RESET")
    ∷ ("QUICHE_ERR_FINAL_SIZE", "QUICHE_ERR_FINAL_SIZE")
    ∷ ("QUICHE_ERR_CONGESTION_CONTROL", "QUICHE_ERR_CONGESTION_CONTROL")
    ∷ ("QUICHE_ERR_ID_LIMIT", "QUICHE_ERR_ID_LIMIT")
    ∷ ("QUICHE_ERR_OUT_OF_IDENTIFIERS", "QUICHE_ERR_OUT_OF_IDENTIFIERS")
    ∷ ("QUICHE_ERR_KEY_UPDATE", "QUICHE_ERR_KEY_UPDATE")
    ∷ ("QUICHE_ERR_CRYPTO_BUFFER_EXCEEDED", "QUICHE_ERR_CRYPTO_BUFFER_EXCEEDED")
    ∷ []

-- `quiche_h3_error_to_string`.
unfoldable pub quiche_h3_error_to_string : (String → ℤ) → ℤ → String
quiche_h3_error_to_string code error = switch code h3_cases error

-- `quiche_error_to_string`.
unfoldable pub quiche_error_to_string : (String → ℤ) → ℤ → String
quiche_error_to_string code error = switch code quiche_cases error
