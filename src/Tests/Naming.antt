-- ===== src/Tests/Naming.antt =====
-- Runs of operator/pkg/naming on plain ASCII tables.
use waas.Prelude.{
  ℕ, zero, suc, ◌+◌, ◌≤◌, ◌≡◌, refl, true, false, ◌&&◌, List, [], ◌∷◌, ◌++◌, none, some, Bytes,
  codes, leb, if◌then◌else◌, length, arith,
}
use waas.Naming.{
  Tables, PatternValues, Piece, char, token, pieces_from, by_token, literal_length, token_count,
  expand, expand_token, validate_label, bad_label, sanitize_with_limit, normalize_label,
  letters_from, trim_dashes, fit_segment, suffix, hex, personal_namespace, is_personal_namespace_of,
  resolve_namespace, resolve_pieces, all_known, has_brace, name, failed, unknown_placeholder,
  label_from, last_part, first_part, identity_segment,
}
use waas.Naming.Label.{IsLabel, sanitize_with_limit-IsLabel}
use waas.Naming.Personal.{personal_namespace-IsLabel}
use waas.Naming.Pattern.{expand-fits}
use waas.Prelude.{equal}

abbrev lower : ℕ → ℕ
lower c = if leb b'A' c && leb c b'Z' then c + 32 else c

abbrev zeros : ℕ → Bytes
zeros zero = []
zeros (suc n) = 0 ∷ zeros n

abbrev ascii : Tables
ascii = record { nfkd = λ s. s; is_mark = λ c. false; to_lower = lower; digest = λ s. zeros 32 }

abbrev someone : PatternValues
someone = record {
  user = codes "Ann Lee";
  user_id = codes "4f2a-17";
  workspace = codes "Dev_Box";
  template_name = [];
  os = [];
}

digest-length_example : (raw : Bytes) → length (ascii.digest raw) ≡ 32
digest-length_example raw = refl

sanitize-test : sanitize_with_limit ascii (codes "--Ann  Lee!") 63 ≡ codes "ann-lee"
unfolding sanitize_with_limit normalize_label letters_from
sanitize-test = refl

sanitize-empty_test : sanitize_with_limit ascii (codes "!!") 63 ≡ codes "x"
unfolding sanitize_with_limit normalize_label letters_from
sanitize-empty_test = refl

sanitize-cut_test : sanitize_with_limit ascii (codes "ann-lee") 4 ≡ codes "ann"
unfolding sanitize_with_limit normalize_label letters_from trim_dashes
sanitize-cut_test = refl

fit_segment-test : fit_segment ascii (codes "ann-lee-of-sales") 12 ≡ codes "ann-le-00000"
unfolding fit_segment sanitize_with_limit normalize_label letters_from trim_dashes suffix hex
fit_segment-test = refl

resolve_namespace-test :
    resolve_namespace ascii (codes "lab-{user}-{workspace}") someone
    ≡ name (codes "lab-ann-lee-dev-box")
unfolding resolve_namespace resolve_pieces pieces_from by_token all_known has_brace literal_length
    token_count expand expand_token fit_segment sanitize_with_limit normalize_label letters_from
    suffix hex trim_dashes validate_label label_from equal
resolve_namespace-test = refl

resolve_namespace-unknown_test :
    resolve_namespace ascii (codes "lab-{host}") someone ≡ failed unknown_placeholder
unfolding resolve_namespace resolve_pieces pieces_from by_token all_known equal
resolve_namespace-unknown_test = refl

validate_label-test : validate_label (codes "-ab") ≡ some bad_label
unfolding validate_label label_from equal
validate_label-test = refl

personal-test : personal_namespace ascii (codes "???") (codes "4f2a-9-17") ≡ codes "waas-4f2a-17"
unfolding personal_namespace resolve_namespace resolve_pieces pieces_from by_token all_known
    has_brace literal_length token_count expand expand_token fit_segment identity_segment first_part
    last_part sanitize_with_limit normalize_label letters_from suffix hex trim_dashes validate_label
    label_from equal
personal-test = refl

abbrev full_pattern : List Piece
full_pattern =
    char b'q' ∷ char b'-' ∷ token (codes "user") ∷ char b'-' ∷ token (codes "workspace") ∷ []

personal_namespace-IsLabel_example :
    (seg : Bytes) × (personal_namespace ascii (codes "???") (codes "4f2a-17")
      ≡ codes "waas-" ++ seg)
    × (validate_label (personal_namespace ascii (codes "???") (codes "4f2a-17")) ≡ none)
    × (is_personal_namespace_of ascii
          (codes "???")
          (codes "4f2a-17")
          (personal_namespace ascii (codes "???") (codes "4f2a-17"))
        ≡ true)
personal_namespace-IsLabel_example =
    personal_namespace-IsLabel ascii digest-length_example (codes "???") (codes "4f2a-17") (λ e. cc)

sanitize_with_limit-IsLabel_example :
    IsLabel (sanitize_with_limit ascii (codes "Ann Lee") 5)
    × (validate_label (sanitize_with_limit ascii (codes "Ann Lee") 5) ≡ none)
    × (length (sanitize_with_limit ascii (codes "Ann Lee") 5) ≤ 5)
sanitize_with_limit-IsLabel_example = sanitize_with_limit-IsLabel ascii (codes "Ann Lee") 5

expand-fits_example : length (codes "q-ann-lee-dev-box") ≤ 63
unfolding literal_length token_count expand expand_token by_token fit_segment sanitize_with_limit
    normalize_label letters_from suffix hex trim_dashes equal
expand-fits_example =
    expand-fits ascii digest-length_example someone full_pattern (codes "q-ann-lee-dev-box")
      (omega arith) (omega arith) refl
