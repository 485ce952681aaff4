-- ===== src/Tests/Metakeys.antt =====
-- Keys of users and of the platform.
use waas.Prelude.{◌≡◌, refl, [], ◌∷◌, none, some, codes, equal}
use waas.Metakeys.{Meta, reserved_key, check_key, cut, has_suffix, merge_allowed}
use waas.Metakeys.Merge.{lookup, or_else, if_fine, lookup-merge_allowed}

lookalike : check_key (codes "notkubernetes.io/x") ≡ none
unfolding check_key cut has_suffix equal
lookalike = refl

subdomain : check_key (codes "app.kubernetes.io/name") ≡ some reserved_key
unfolding check_key cut has_suffix equal
subdomain = refl

abbrev of_user : Meta
of_user = (codes "team", codes "a") ∷ (codes "waas.xorhub.io/owner", codes "me") ∷ []

abbrev of_platform : Meta
of_platform = (codes "team", codes "b") ∷ []

lookup-merge_allowed_example :
    lookup (codes "team") (merge_allowed of_user of_platform)
    ≡ or_else
        (lookup (codes "team") of_platform)
        (if_fine (codes "team") (lookup (codes "team") of_user))
unfolding lookup equal
lookup-merge_allowed_example =
    lookup-merge_allowed (codes "team") of_user of_platform (refl, (refl, tt)) (refl, tt)
