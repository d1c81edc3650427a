-- ===== src/Response.antt =====
-- src/misc/response.cpp: the HTTP head, a reply, and a failure in bencoding. `response` takes a
-- flag for compression and does not look at it.
use liquid.Base.{Bool, false, Bytes, ◌++◌, length}
use liquid.Base.Text.{codes, to_string}

unfoldable pub response_head : Bytes
response_head =
    codes
      "HTTP/1.1 200 OK\r\nServer: liquid 0.0\r\nContent-Type: text/plain\r\nConnection: close\r\n\r\n"

unfoldable pub response : Bytes → Bool → Bytes
response body gzip = response_head ++ body

unfoldable pub error : Bytes → Bytes
unfolding response
error reason =
    response
      (codes "d14:failure reason"
        ++ (to_string (length reason)
            ++ (codes ":" ++ (reason ++ codes "12:min intervali5400e8:intervali5400ee"))))
      false
