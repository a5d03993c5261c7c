-- ===== src/Examples/Pages.antt =====
-- A text with markup and an ampersand.
use nano_rpc_gateway.Prelude.{◌≡◌, true, refl, all}
use nano_rpc_gateway.Prelude.Text.{codes}
use nano_rpc_gateway.Pages.{escape_html_text, escaped, is_inert, escape_html_text-inert}

escape_html_text_test :
    escape_html_text "<b a='1'>&amp;</b>" ≡ "&lt;b a=&#39;1&#39;&gt;&amp;amp;&lt;/b&gt;"
unfolding escape_html_text
escape_html_text_test = refl

escape_html_text-inert_example :
    (escape_html_text "<b>&" ≡ escaped "<b>&")
    × (all is_inert (codes (escape_html_text "<b>&")) ≡ true)
escape_html_text-inert_example = escape_html_text-inert "<b>&"
