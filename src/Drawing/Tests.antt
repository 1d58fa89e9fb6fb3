-- ===== src/Drawing/Tests.antt =====
-- The message that the clients of week6 send, and the theorems applied to it.
use game_network.Prelude.{
  ◌≡◌, refl, [], ◌∷◌, ◌++◌, arith, map, pos, replicate, newline, codes, some, negsuc, read_digits,
}
use game_network.Drawing.Message.{DrawingMessage, message_bytes, received, read_message}
use game_network.Drawing.Wire.{IsMessage, read_message-message_bytes}
use game_network.Drawing.Text.{
  DrawingText, entries, end_marker, text_lines, message_text, receive_text, zeros, IsDrawing,
  scan_int,
}
use game_network.Drawing.Exchange.{receive_text-pieces, receive_text-message_text}

abbrev line : DrawingMessage
line = record { x1 = 10; y1 = 20; x2 = 100; y2 = 200; width = 5; color = 0xFF0000 }

line-IsMessage : IsMessage line
line-IsMessage = record {
  x1_fits = omega arith;
  y1_fits = omega arith;
  x2_fits = omega arith;
  y2_fits = omega arith;
  width_fits = omega arith;
  color_fits = omega arith;
}

read_message-message_bytes_example :
    read_message (received (replicate 24 9) (message_bytes line ++ (1 ∷ []))) ≡ line
read_message-message_bytes_example =
    read_message-message_bytes line (replicate 24 9) (1 ∷ []) line-IsMessage

abbrev text : DrawingText
text = record {
  x1 = pos 10;
  y1 = pos 20;
  x2 = pos 100;
  y2 = pos 200;
  width = pos 5;
  color = pos 0xFF0000;
}

text-IsDrawing : IsDrawing text
text-IsDrawing = record {
  x1_fits = omega arith;
  y1_fits = omega arith;
  x2_fits = omega arith;
  y2_fits = omega arith;
  width_fits = omega arith;
  color_fits = omega arith;
}

receive_text-pieces_example :
    receive_text (map text_lines (entries text ∷ []) ++ ((end_marker ++ (newline ∷ [])) ∷ [])) zeros
    ≡ text
receive_text-pieces_example =
    receive_text-pieces text zeros (entries text ∷ []) [] text-IsDrawing refl

receive_text-message_text_example : receive_text (message_text text ∷ []) zeros ≡ zeros
receive_text-message_text_example = receive_text-message_text text zeros []

-- A number just beyond an int comes out negative.
scan_int_wraps : scan_int (codes "2147483648") ≡ some (negsuc 2147483647)
unfolding scan_int read_digits
scan_int_wraps = refl

scan_int_low : scan_int (codes "-2147483648") ≡ some (negsuc 2147483647)
unfolding scan_int read_digits
scan_int_low = refl
