-- ===== src/Params/Desktop.antt =====
-- The registry of operator/pkg/params/params.go: the shared, VNC and RDP parameters.
use waas.Prelude.{List, [], ◌∷◌, some, true, false, codes}
use waas.Params.Types.{
  Param, entry, text, boolean, integer, choice, ui, advanced, display, audio, input, clipboard,
  session, security, connection, all_guacd,
}

abbrev pub shared : List Param
shared =
    entry (codes "read-only") all_guacd (boolean) (codes "false") ui security false
    ∷ entry (codes "disable-copy") all_guacd (boolean) (codes "false") ui clipboard true
    ∷ entry (codes "disable-paste") all_guacd (boolean) (codes "false") ui clipboard true
    ∷ []

abbrev pub vnc : List Param
vnc =
    entry (codes "color-depth") (codes "vnc" ∷ codes "rdp" ∷ [])
      (choice (codes "8" ∷ codes "16" ∷ codes "24" ∷ codes "32" ∷ [])) (codes "24") ui display false
    ∷ entry (codes "swap-red-blue") (codes "vnc" ∷ []) (boolean) (codes "false") ui display false
    ∷ entry (codes "cursor") (codes "vnc" ∷ []) (choice (codes "local" ∷ codes "remote" ∷ []))
        (codes "local") ui display false
    ∷ entry (codes "force-lossless") (codes "vnc" ∷ []) (boolean) (codes "false") ui display false
    ∷ entry (codes "enable-audio") (codes "vnc" ∷ []) (boolean) (codes "false") ui audio false
    ∷ entry (codes "audio-servername") (codes "vnc" ∷ []) (text) [] advanced audio false
    ∷ entry (codes "encodings") (codes "vnc" ∷ []) (text) [] advanced display false
    ∷ entry (codes "autoretry") (codes "vnc" ∷ []) (integer (some 0) (some 10)) [] advanced
        connection false
    ∷ entry (codes "clipboard-encoding") (codes "vnc" ∷ [])
        (choice (codes "ISO8859-1" ∷ codes "UTF-8" ∷ codes "UTF-16" ∷ codes "CP1252" ∷ []))
        (codes "ISO8859-1") advanced clipboard false
    ∷ []

abbrev pub rdp : List Param
rdp =
    entry (codes "resize-method") (codes "rdp" ∷ [])
      (choice (codes "display-update" ∷ codes "reconnect" ∷ [])) (codes "display-update") ui display
      false
    ∷ entry (codes "security") (codes "rdp" ∷ [])
        (choice (codes "any" ∷ codes "nla" ∷ codes "tls" ∷ codes "rdp" ∷ [])) (codes "any") advanced
        security false
    ∷ entry (codes "ignore-cert") (codes "rdp" ∷ []) (boolean) (codes "true") advanced security
        false
    ∷ entry (codes "disable-audio") (codes "rdp" ∷ []) (boolean) (codes "false") ui audio false
    ∷ entry (codes "enable-audio-input") (codes "rdp" ∷ []) (boolean) (codes "false") advanced audio
        false
    ∷ entry (codes "server-layout") (codes "rdp" ∷ [])
        (choice (
          codes "en-us-qwerty"
          ∷ codes "en-gb-qwerty"
          ∷ codes "cs-cz-qwertz"
          ∷ codes "da-dk-qwerty"
          ∷ codes "de-ch-qwertz"
          ∷ codes "de-de-qwertz"
          ∷ codes "es-es-qwerty"
          ∷ codes "es-latam-qwerty"
          ∷ codes "fr-be-azerty"
          ∷ codes "fr-ca-qwerty"
          ∷ codes "fr-ch-qwertz"
          ∷ codes "fr-fr-azerty"
          ∷ codes "hu-hu-qwertz"
          ∷ codes "it-it-qwerty"
          ∷ codes "ja-jp-qwerty"
          ∷ codes "nl-nl-qwerty"
          ∷ codes "no-no-qwerty"
          ∷ codes "pl-pl-qwertz"
          ∷ codes "pt-br-qwerty"
          ∷ codes "pt-pt-qwerty"
          ∷ codes "ro-ro-qwerty"
          ∷ codes "sv-se-qwerty"
          ∷ codes "tr-tr-qwerty"
          ∷ codes "failsafe"
          ∷ []))
        (codes "en-us-qwerty") ui input false
    ∷ entry (codes "console") (codes "rdp" ∷ []) (boolean) (codes "false") advanced session false
    ∷ entry (codes "enable-wallpaper") (codes "rdp" ∷ []) (boolean) (codes "false") advanced display
        false
    ∷ entry (codes "enable-font-smoothing") (codes "rdp" ∷ []) (boolean) (codes "false") advanced
        display false
    ∷ entry (codes "enable-desktop-composition") (codes "rdp" ∷ []) (boolean) (codes "false")
        advanced display false
    ∷ entry (codes "enable-full-window-drag") (codes "rdp" ∷ []) (boolean) (codes "false") advanced
        display false
    ∷ entry (codes "enable-menu-animations") (codes "rdp" ∷ []) (boolean) (codes "false") advanced
        display false
    ∷ entry (codes "enable-theming") (codes "rdp" ∷ []) (boolean) (codes "false") advanced display
        false
    ∷ entry (codes "disable-bitmap-caching") (codes "rdp" ∷ []) (boolean) (codes "false") advanced
        display false
    ∷ entry (codes "disable-offscreen-caching") (codes "rdp" ∷ []) (boolean) (codes "false")
        advanced display false
    ∷ entry (codes "disable-glyph-caching") (codes "rdp" ∷ []) (boolean) (codes "false") advanced
        display false
    ∷ entry (codes "normalize-clipboard") (codes "rdp" ∷ [])
        (choice (codes "preserve" ∷ codes "text" ∷ [])) (codes "preserve") advanced clipboard false
    ∷ entry (codes "initial-program") (codes "rdp" ∷ []) (text) [] advanced session false
    ∷ entry (codes "client-name") (codes "rdp" ∷ []) (text) [] advanced session false
    ∷ entry (codes "console-audio") (codes "rdp" ∷ []) (boolean) (codes "false") advanced audio
        false
    ∷ entry (codes "timezone") (codes "rdp" ∷ codes "ssh" ∷ []) (text) [] advanced session false
    ∷ []
