-- ===== src/Params/Other.antt =====
-- The registry of operator/pkg/params/params.go: the SSH parameters and those the platform owns.
use waas.Prelude.{List, [], ◌∷◌, none, some, false, codes}
use waas.Params.Types.{
  Param, entry, text, boolean, integer, choice, ui, advanced, platform, display, input, session,
  security, connection, all_guacd,
}

abbrev pub ssh : List Param
ssh =
    entry (codes "font-size") (codes "ssh" ∷ []) (integer (some 6) (some 48)) (codes "12") ui
      display false
    ∷ entry (codes "color-scheme") (codes "ssh" ∷ [])
        (choice (
          codes "black-white"
          ∷ codes "gray-black"
          ∷ codes "green-black"
          ∷ codes "white-black"
          ∷ []))
        (codes "gray-black") ui display false
    ∷ entry (codes "font-name") (codes "ssh" ∷ []) (text) [] advanced display false
    ∷ entry (codes "scrollback") (codes "ssh" ∷ []) (integer (some 0) (some 100000)) (codes "1000")
        advanced display false
    ∷ entry (codes "terminal-type") (codes "ssh" ∷ []) (text) (codes "linux") advanced session false
    ∷ entry (codes "command") (codes "ssh" ∷ []) (text) [] advanced session false
    ∷ entry (codes "server-alive-interval") (codes "ssh" ∷ []) (integer (some 0) (some 3600)) []
        advanced connection false
    ∷ entry (codes "backspace") (codes "ssh" ∷ []) (integer (some 1) (some 255)) (codes "127")
        advanced input false
    ∷ entry (codes "locale") (codes "ssh" ∷ []) (text) [] advanced session false
    ∷ entry (codes "host-key") (codes "ssh" ∷ []) (text) [] advanced security false
    ∷ []

abbrev pub platform_owned : List Param
platform_owned =
    entry (codes "hostname") all_guacd (text) [] platform connection false
    ∷ entry (codes "port") all_guacd (integer none none) [] platform connection false
    ∷ entry (codes "username") all_guacd (text) [] platform connection false
    ∷ entry (codes "password") all_guacd (text) [] platform connection false
    ∷ entry (codes "private-key") (codes "ssh" ∷ []) (text) [] platform connection false
    ∷ entry (codes "passphrase") (codes "ssh" ∷ []) (text) [] platform connection false
    ∷ entry (codes "dest-host") (codes "vnc" ∷ []) (text) [] platform connection false
    ∷ entry (codes "dest-port") (codes "vnc" ∷ []) (integer none none) [] platform connection false
    ∷ entry (codes "gateway-hostname") (codes "rdp" ∷ []) (text) [] platform connection false
    ∷ entry (codes "gateway-port") (codes "rdp" ∷ []) (integer none none) [] platform connection
        false
    ∷ entry (codes "gateway-username") (codes "rdp" ∷ []) (text) [] platform connection false
    ∷ entry (codes "gateway-password") (codes "rdp" ∷ []) (text) [] platform connection false
    ∷ entry (codes "enable-sftp") all_guacd (boolean) [] platform session false
    ∷ entry (codes "enable-drive") (codes "rdp" ∷ []) (boolean) [] platform session false
    ∷ entry (codes "wol-send-packet") all_guacd (boolean) [] platform connection false
    ∷ entry (codes "domain") (codes "rdp" ∷ []) (text) [] platform connection false
    ∷ entry (codes "disable-auth") (codes "rdp" ∷ []) (boolean) [] platform security false
    ∷ entry (codes "static-channels") (codes "rdp" ∷ []) (text) [] platform session false
    ∷ entry (codes "load-balance-info") (codes "rdp" ∷ []) (text) [] platform connection false
    ∷ entry (codes "recording-path") all_guacd (text) [] platform session false
    ∷ entry (codes "recording-name") all_guacd (text) [] platform session false
    ∷ entry (codes "create-recording-path") all_guacd (boolean) [] platform session false
    ∷ entry (codes "typescript-path") (codes "ssh" ∷ []) (text) [] platform session false
    ∷ entry (codes "sftp-hostname") (codes "vnc" ∷ codes "rdp" ∷ []) (text) [] platform connection
        false
    ∷ []
