-- ===== src/Webhook/Unowned.antt =====
-- What the role of an administrator takes out of the webhook's decision.
use waas.Prelude.{Option}
use waas.Metakeys.{Meta}
use waas.Naming.{Tables}
use waas.Policy.Objects.{Workspace}
use waas.Policy.Quota.{Quantities}
use waas.Webhook.{Validator, Details, Answers}

module _ (quantities : Quantities) (tables : Tables) where
  open quantities use {Q}

  module _ (v : Validator) (details : Details Q) (a : Answers Q) (target : Option Meta)
      (ws : Workspace Q) where
    abbrev other : Answers Q
    other = record a { target = target }
