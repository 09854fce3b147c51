-- ===== src/Middleware/Examples.antt =====
-- The admin gate and the log guard on test data.
use super_victor.Prelude.{◌≡◌, true, ◌++◌, arith}
use super_victor.Prelude.Text.{codes}
use super_victor.Middleware.{is_admin_subject, is_admin_component}
use super_victor.Middleware.Admin.{is_admin_subject_single, is_admin_subject_escaped}

is_admin_subject_single_example :
    is_admin_subject (codes " ou = Admin ") ≡ is_admin_component (codes " ou = Admin ")
is_admin_subject_single_example = is_admin_subject_single (codes " ou = Admin ") (ground arith)

is_admin_subject_escaped_example : is_admin_subject (codes "CN=x" ++ codes "\\,OU=admin") ≡ true
is_admin_subject_escaped_example = is_admin_subject_escaped (codes "CN=x")
