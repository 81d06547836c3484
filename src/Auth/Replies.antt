-- ===== src/Auth/Replies.antt =====
-- What the use cases of authentication answer, and what a middleware does with a request.
use memberclass_backend_gola.Common.{ℕ, GoString, str}

-- memberclasserrors.MemberClassError, or another error by its text.
pub data AuthError : Type 0 where
  member_class_error : ℕ → GoString → AuthError
  other_error : GoString → AuthError

pub data AuthReply (A : Type 0) : Type 0 where
  granted : A → AuthReply A
  denied : AuthError → AuthReply A

-- The request goes on with this value in its context, or it is answered with a status and a message.
pub data Entry (A : Type 0) : Type 0 where
  admitted : A → Entry A
  turned_away : ℕ → GoString → Entry A

abbrev pub tenant_not_found : AuthError
tenant_not_found = member_class_error 404 (str "tenant not found")

abbrev pub user_not_found : AuthError
user_not_found = member_class_error 404 (str "user not found")

abbrev pub user_not_in_tenant : AuthError
user_not_in_tenant = member_class_error 403 (str "user does not belong to this tenant")
