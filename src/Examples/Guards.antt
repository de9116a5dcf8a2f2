-- ===== src/Examples/Guards.antt =====
-- The theorems about who is answered, at concrete inputs.
use enseada.Prelude.{none, ◌⊎◌}
use enseada.Guid.{simple}
use enseada.Oauth.Api as Clients
use enseada.Oauth.Api.Access as ClientAccess
use enseada.Oauth.Api.Access.{client_request-Authorized}
use enseada.Rbac.Routes
use enseada.Rbac.Routes.Access
use enseada.Rbac.Routes.Access.{access_request-Authorized}
use enseada.Users.Routes as UserRoutes
use enseada.Users.Routes.Access as UserAccess
use enseada.Users.Routes.Access.{user_request-Authorized}
use enseada.Http.Guard.Refusals.{Stopped}
use enseada.Examples.Directory.{directory, users, users_db, rbac, enforcer, root, managing, nobody}
use enseada.Examples.Registrations.{registry, clients, oauth_db, keeper, registrar, no_clients}

abbrev body : Routes.Permission
body = record { subject = none; object = simple "repos"; action = "read" }

access_request-Authorized_example :
    Access.Authorized directory rbac users users_db enforcer managing root
      (Routes.grant_user "ann" body)
    ⊎ Stopped
        (Routes.serve directory rbac users users_db enforcer managing root
          (Routes.grant_user "ann" body))
        nobody
access_request-Authorized_example =
    access_request-Authorized directory rbac users users_db enforcer managing root
      (Routes.grant_user "ann" body) nobody

user_request-Authorized_example :
    UserAccess.Authorized directory rbac users users_db enforcer managing root
      (UserRoutes.delete_user "ann")
    ⊎ Stopped
        (UserRoutes.serve directory rbac users users_db enforcer managing root
          (UserRoutes.delete_user "ann"))
        nobody
user_request-Authorized_example =
    user_request-Authorized directory rbac users users_db enforcer managing root
      (UserRoutes.delete_user "ann") nobody

client_request-Authorized_example :
    ClientAccess.Authorized registry clients oauth_db keeper registrar root
      (Clients.delete_one "app")
    ⊎ Stopped
        (Clients.serve registry clients oauth_db keeper registrar root (Clients.delete_one "app"))
        no_clients
client_request-Authorized_example =
    client_request-Authorized registry clients oauth_db keeper registrar root
      (Clients.delete_one "app") no_clients
