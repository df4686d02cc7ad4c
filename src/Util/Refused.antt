-- ===== src/Util/Refused.antt =====
-- What a typed line does where the user is not logged in.
use ifellsofuckinggood.Prelude.{
  ◌≡◌, Bytes, codes, Bool, true, Option, none, some, List, [], ◌∷◌, ◌++◌, returned, undefined,
  before_nul, to_string, ◌⊎◌, ℕ, format,
}
use ifellsofuckinggood.TransObj.{TransObj}
use ifellsofuckinggood.MyEnum.{MsgType, msg_code, msg_login, msg_reg}
use ifellsofuckinggood.Player.{PlayerData, Archive}
use ifellsofuckinggood.HandleMsg.Client.{Client, put_output}
use ifellsofuckinggood.IoManger.{login_hint}
use ifellsofuckinggood.Util.{
  InputHandler, handle_input_of_login, handle_input_of_regin, handle_input_of_show_my_self,
  find_cmd, communication_cmd_table, name_and_pwd, InputResult,
}

-- What a line does for a user who is not logged in: credentials are sent with the name and the password
-- where there are two and both fit.
pub data Effect : Type 0 where
  hint silent own_data : Effect
  credentials : MsgType → Option (Bytes × Bytes) → Effect

abbrev pub effect_of : InputHandler → Option (Bytes × Bytes) → Effect
effect_of handle_input_of_login fields = credentials msg_login fields
effect_of handle_input_of_regin fields = credentials msg_reg fields
effect_of handle_input_of_show_my_self fields = own_data
effect_of _ fields = hint

-- By the parts of the line.
abbrev pub line_effect : (Bytes → Bytes → List Bytes) → List Bytes → Effect
line_effect split (text ∷ []) = hint
line_effect split (word ∷ cmd ∷ []) = elim (find_cmd word communication_cmd_table) [
  | none ↦ silent
  | some h ↦ effect_of h (name_and_pwd (split cmd (codes "|")))
]
line_effect split _ = silent

-- The text that shows the own data.
abbrev pub info : PlayerData → Bytes
info me =
    codes "Your info:  \nid: "
    ++ (to_string me.id
        ++ (codes " \nname: "
            ++ (me.name ++ (codes " \npasswd: " ++ (me.password ++ codes " \n")))))

-- What is left of an object has the type; `E` where nothing is left.
abbrev TypeKept : Type 0 → ℕ → Option (Bool × TransObj) → Type 0
TypeKept E n none = E
TypeKept E n (some p) = p.1.msg_type ≡ n

-- The same, after success.
abbrev Made : Type 0 → ℕ → Option (Bool × TransObj) → Type 0
Made E n none = E
Made E n (some p) = (p.0 ≡ true) × (p.1.msg_type ≡ n)

-- Nothing is left only where one of the two is a format that reads an argument.
abbrev pub IsDirective : Bytes → Bytes → Type 0
IsDirective name passwd = (format name [] ≡ none) ⊎ (format passwd [] ≡ none)

module _ {F : Type 0} (arc : Archive F) where
  -- Login and registration leave the client as it is; they are undefined behaviour only where the name
  -- or the password is a format that reads an argument.
  abbrev pub Does : Effect → Client F → InputResult F → Type 0
  Does hint c r = r ≡ returned (none, put_output arc login_hint c)
  Does silent c r = r ≡ returned (none, c)
  Does own_data c r = r ≡ returned (none, put_output arc (info c.player.data') c)
  Does (credentials t none) c r = r ≡ returned (none, c)
  Does (credentials t (some (name, passwd))) c r =
      ((r ≡ undefined) × IsDirective (before_nul name) (before_nul passwd))
      ⊎ ((o : TransObj) × (r ≡ returned (some o, c)) × (o.msg_type ≡ msg_code t))
