-- ===== src/Handler/Scrape.antt =====
-- `RequestHandler::scrape`. As in the source, the count under `incomplete` is that of the IPv4
-- leechers twice.
use liquid.Base.{◌+◌, false, List, [], ◌∷◌, ◌++◌, Option, none, some, Bytes, length, bytes_eq}
use liquid.Base.Dict.{Dict, find}
use liquid.Base.Text.{codes, to_string}
use liquid.Peers.{size}
use liquid.Torrent.{Torrent}
use liquid.Response.{response}
use liquid.Handler.{Tracker}

unfoldable pub scrape_entry : Bytes → Torrent → Bytes
scrape_entry info_hash tor =
    to_string (length info_hash)
    ++ (codes ":"
        ++ (info_hash
            ++ (codes "d8:completei"
                ++ (to_string (size tor.seeders + size tor.seeders6)
                    ++ (codes "e10:incompletei"
                        ++ (to_string (size tor.leechers + size tor.leechers)
                            ++ (codes "e10:downloadedi"
                                ++ (to_string tor.snatches ++ codes "ee"))))))))

entry_of : Bytes → Option Torrent → Bytes
unfolding scrape_entry
entry_of info_hash none = []
entry_of info_hash (some tor) = scrape_entry info_hash tor

-- The loop over the info hashes; those of no torrent are passed over.
unfoldable pub scrape_entries : Dict Bytes Torrent → List Bytes → Bytes
unfolding entry_of
scrape_entries tor_map [] = []
scrape_entries tor_map (info_hash ∷ info_hashes) =
    entry_of info_hash (find info_hash tor_map) ++ scrape_entries tor_map info_hashes

unfoldable pub scrape : List Bytes → Tracker → Bytes
unfolding scrape_entries
scrape info_hashes t =
    response (codes "d5:filesd" ++ (scrape_entries t.tor_map info_hashes ++ codes "ee")) false
