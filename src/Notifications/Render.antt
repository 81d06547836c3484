-- ===== src/Notifications/Render.antt =====
-- render.go. `decode` is json.Unmarshal into a map: its entries in the order in which the range visits
-- them, each with fmt.Sprint of its value, or none for an error.
use memberclass_backend_gola.Notifications.{Notification}
use memberclass_backend_gola.Common.{
  ℕ, zero, suc, ◌-◌, Option, none, some, List, [], ◌∷◌, ◌++◌, if◌then◌else◌, length, GoString, str,
  ◌===◌, is_empty, has_prefix,
}

-- strings.ReplaceAll for a text that is not empty; `skip` counts the bytes of a match still to pass.
replace_from : GoString → GoString → ℕ → GoString → GoString
unfolding has_prefix
replace_from old new skip [] = []
replace_from old new (suc skip) (c ∷ cs) = replace_from old new skip cs
replace_from old new zero (c ∷ cs) =
    let matched = replace_from old new (length old - 1) cs in
    let passed = replace_from old new zero cs in
    if has_prefix old (c ∷ cs) then new ++ matched else c ∷ passed

unfoldable pub replace_all : GoString → GoString → GoString → GoString
unfolding replace_from
replace_all s old new = replace_from old new 0 s

-- The templates of ptBR, in UTF-8.
unfoldable pub pt_br : GoString → Option (GoString × GoString)
unfolding ◌===◌
pt_br key =
    if key === str "notifications.commentReply"
    then some (
      str "Sua d" ++ (195 ∷ 186 ∷ str "vida foi respondida"),
      str "Sua pergunta na aula \"{lessonName}\" foi respondida.",
    )
    else if key === str "notifications.postComment"
    then some (str "Comentaram no seu post", str "{actorName} comentou no seu post da comunidade.")
    else none

-- The loop over the data.
unfoldable pub interpolate : List (GoString × GoString) → GoString × GoString → GoString × GoString
unfolding replace_all
interpolate [] text = text
interpolate ((k, v) ∷ rest) (title, body) =
    let placeholder = str "{" ++ (k ++ str "}") in
    interpolate rest (replace_all title placeholder v, replace_all body placeholder v)

filled : Option (List (GoString × GoString)) → GoString × GoString → GoString × GoString
unfolding interpolate
filled none text = text
filled (some data_of) text = interpolate data_of text

translated :
    (GoString → Option (List (GoString × GoString)))
    → GoString
    → GoString
    → Option (GoString × GoString)
    → GoString × GoString
unfolding filled
translated decode key message_data none = (key, [])
translated decode key message_data (some tpl) =
    if is_empty message_data then tpl else filled (decode message_data) tpl

by_key :
    (GoString → Option (List (GoString × GoString)))
    → Notification
    → Option GoString
    → GoString × GoString
unfolding translated pt_br
by_key decode n none = ([], [])
by_key decode n (some key) = translated decode key n.message_data (pt_br key)

literal_or :
    (GoString → Option (List (GoString × GoString)))
    → Notification
    → Option GoString
    → Option GoString
    → GoString × GoString
unfolding by_key
literal_or decode n none body = by_key decode n n.message_key
literal_or decode n (some title) none = by_key decode n n.message_key
literal_or decode n (some title) (some body) = (title, body)

unfoldable pub render_for_push :
    (GoString → Option (List (GoString × GoString))) → Notification → GoString × GoString
unfolding literal_or
render_for_push decode n = literal_or decode n n.title n.body
