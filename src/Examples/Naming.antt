-- ===== src/Examples/Naming.antt =====
-- The naming of packages/core/src/sources/repository-id.ts, on samples.
use Prim.Native.String.{◌++◌ as append}
use gateline.Prelude.{true, ◌≡◌, refl, some, none, trim_end}
use gateline.Sources.Naming.{repository_id_key}
use gateline.Sources.Naming.Origin.{parse_schemed, parse_scp, parse_origin_url, id_from_origin}
use gateline.Sources.Naming.Rules.{same_repository_id, last_id_segment, repository_id_problem}
use gateline.Sources.Naming.Derived.{Named, derive_repository_id, called, local}
use gateline.Sources.Naming.Usable.{UsableId, derive_repository_id-UsableId}
use gateline.Sources.Naming.Forms.{parse_origin_url-forms}

abbrev billing_dir : Named
billing_dir = record {
  origin_url = none;
  explicit_id = none;
  name = none;
  dir = "/home/ada/billing/";
}

billing_local :
    derive_repository_id billing_dir ≡ called (record { id = "local/billing"; from = local })
unfolding derive_repository_id
billing_local = refl

derive_repository_id-UsableId_example : UsableId "local/billing"
derive_repository_id-UsableId_example =
    derive_repository_id-UsableId billing_dir (record { id = "local/billing"; from = local })
      billing_local

-- A user and a port are dropped, the host's case is too, and the path's is kept.
ported :
    id_from_origin (some " ssh://git@GitHub.com:22/Acme/billing.git ")
    ≡ some "github.com/Acme/billing"
unfolding id_from_origin parse_schemed
ported = refl

a_path : id_from_origin (some "./a:b") ≡ none
unfolding id_from_origin parse_scp
a_path = refl

a_drive : id_from_origin (some "C:/work/billing") ≡ none
unfolding id_from_origin parse_scp
a_drive = refl

dashed :
    repository_id_problem "github.com/-/billing"
    ≡ some "\"github.com/-/billing\" has a segment that is \"-\", which the URL shape reserves"
unfolding repository_id_problem
dashed = refl

-- Ids that differ only in case name one repository.
one_repository : same_repository_id "github.com/Acme/billing" "github.com/acme/Billing" ≡ true
unfolding same_repository_id repository_id_key
one_repository = refl

billing_shown : last_id_segment "github.com/acme/billing/" ≡ "billing"
unfolding last_id_segment
billing_shown = refl

billing_trimmed : trim_end "acme/billing.git" ≡ "acme/billing.git"
unfolding trim_end
billing_trimmed = refl

parse_origin_url-forms_example :
    parse_origin_url (some (append "git@" (append "github.com" (append ":" "acme/billing.git"))))
    ≡ parse_origin_url
        (some (append "https://" (append "github.com" (append "/" "acme/billing.git"))))
parse_origin_url-forms_example =
    parse_origin_url-forms "github.com" "acme/billing.git" refl refl billing_trimmed
