-- ===== src/WebSocket/Tests.antt =====
-- Headers and requests at concrete inputs.
use tcpkali.Base.{◌≡◌, refl, Bytes, [], ◌∷◌, ◌++◌, some, arith, replicate}
use tcpkali.WebSocket.Frame.{client, text_frame, ping, frame_header}
use tcpkali.WebSocket.Frame.Laws.{decode, header_of, decode-frame_header}
use tcpkali.WebSocket.Detect.{codes, websocket_detected, response, same_nocase, detect}
use tcpkali.WebSocket.Detect.Laws.{lines_then, detect_request}
use tcpkali.WebSocket.Detect.Sound.{Outcome, detect-Outcome}

frame_header_runs :
    frame_header client text_frame 0 1 300 ≡ 0x81 ∷ 0xfe ∷ 1 ∷ 44 ∷ 0 ∷ 0 ∷ 0 ∷ 0 ∷ []
unfolding frame_header
frame_header_runs = refl

decode-frame_header_example :
    decode (frame_header client ping 0 1 70000 ++ (7 ∷ 8 ∷ []))
    ≡ some (header_of client ping 0 1 70000, 7 ∷ 8 ∷ [])
decode-frame_header_example =
    decode-frame_header client ping 0 1 70000 (7 ∷ 8 ∷ []) (omega arith) (omega arith)

-- Stands for the base64 text of a digest.
abbrev some_text : Bytes → Bytes
some_text key = codes "s3pPLMBiTxaQ9kYGzzhZRbK+xOo="

abbrev key : Bytes
key = codes "x3JJHMbDL1EzLkh9GBhXDw=="

detect_request_example :
    detect some_text (
      codes "GET / HTTP/1.1\r"
      ++ (10
          ∷ lines_then (codes "Host: a\r" ∷ []) (
              codes "Sec-WebSocket-Key:"
              ++ ((replicate 1 32 ++ (key ++ (13 ∷ []))) ++ (10 ∷ codes "\r\n")))))
    ≡ (websocket_detected, response some_text key)
unfolding same_nocase
detect_request_example =
    detect_request some_text (codes "GET / HTTP/1.1\r") (codes "Host: a\r" ∷ [])
      (codes "Sec-WebSocket-Key:") 1 key (codes "\r\n") (omega arith)
      ((λ e. cc), omega arith, refl, tt) refl refl (omega arith) (omega arith) (omega arith)
      (omega arith)

abbrev cut_short : Bytes
cut_short = codes "GET /\r\nsec-websocket-key: x3JJ"

detect-Outcome_example :
    Outcome some_text (detect some_text cut_short).0 (detect some_text cut_short).1
detect-Outcome_example = detect-Outcome some_text cut_short
