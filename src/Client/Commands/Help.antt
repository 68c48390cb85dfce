-- ===== src/Client/Commands/Help.antt =====
-- client/client_app.py: the lines of `print_help`.
use g04_final_project_d_25_c.Prelude.{String, List, [], ◌∷◌}

abbrev pub help_lines : List String
help_lines =
    "Available commands:" ∷ "  /help                Show this help"
    ∷ "  /online              List online users" ∷ "  /join <room>         Join an existing room"
    ∷ "  /create <room>       Create and join a room"
    ∷ "  /leave               Leave the current room"
    ∷ "  /invite <user>       Invite a user to your room"
    ∷ "  /kick <user>         Kick a user from your room"
    ∷ "  /delete <room>       Delete a room you own"
    ∷ "  /matchmake           Enter matchmaking queue"
    ∷ "  /friend <username>   Send a friend request"
    ∷ "  /accept <username>   Accept a friend request"
    ∷ "  /reject <username>   Reject a friend request" ∷ "  /remove <username>   Remove a friend"
    ∷ "  /friends             Show your friend list"
    ∷ "  /msg <user> <text>   Send a private message"
    ∷ "  /status <status>     Update your presence status (ONLINE, OFFLINE, IN_ROOM, DO_NOT_DISTURB)"
    ∷ "  /sendimage <path>    Upload an image to current room"
    ∷ "  /sendfile <path>     Upload a file to current room (chunked)"
    ∷ "  /voicejoin           Join voice in current room"
    ∷ "  /voiceleave          Leave voice room" ∷ "  /mute                Mute your microphone"
    ∷ "  /unmute              Unmute your microphone" ∷ "  /voiceusers          List users in voice"
    ∷ "  /ptt                 Toggle push-to-talk (experimental)"
    ∷ "  /reconnect           Reconnect using session token"
    ∷ "  /quit                Disconnect from the server" ∷ []
