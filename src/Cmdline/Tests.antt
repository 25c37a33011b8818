-- ===== src/Cmdline/Tests.antt =====
-- Command lines after the unit tests of src/kernel_cmdline.rs.
use arma.Base.{◌≡◌, refl, Bool, true, false, some}
use arma.Base.Text.{codes}
use arma.Cmdline.{is_space, bootconfig_requested}
use arma.Cmdline.Ends.{bootconfig_requested_ends}
use arma.Cmdline.Words.{pieces, asks, bootconfig_requested-asks}

quoted_value : bootconfig_requested (codes "foo=\"--\" bootconfig=0") ≡ some true
unfolding bootconfig_requested
quoted_value = refl

whole_quoted : bootconfig_requested (codes "\"bootconfig\"") ≡ some true
unfolding bootconfig_requested
whole_quoted = refl

init_argument : bootconfig_requested (codes "quiet -- bootconfig") ≡ some false
unfolding bootconfig_requested
init_argument = refl

bootconfig_requested_ends_example :
    (b : Bool) × (bootconfig_requested (codes "quiet \"a b\" bootconfig") ≡ some b)
bootconfig_requested_ends_example = bootconfig_requested_ends (codes "quiet \"a b\" bootconfig")

words_in_order : asks (pieces (codes "quiet  bootconfig=off -- x")) ≡ true
unfolding asks pieces is_space
words_in_order = refl

bootconfig_requested-asks_example :
    bootconfig_requested (codes "quiet bootconfig=off -- x")
    ≡ some (asks (pieces (codes "quiet bootconfig=off -- x")))
bootconfig_requested-asks_example =
    bootconfig_requested-asks (codes "quiet bootconfig=off -- x") refl
